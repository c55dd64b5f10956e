-- ===== src/Evaluator/Engine/Laws.antt =====
-- What a Run of packages/weave/src/evaluator/engine.ts says, in the modules below.
pub mod Judgement
pub mod Throws
pub mod Verdict
pub mod Faults
pub mod Replay
