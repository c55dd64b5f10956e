-- ===== src/Evaluator/Engine.antt =====
-- packages/weave/src/evaluator/engine.ts: the judgement of an execution against a Requirement's
-- Claims, and `evaluateCandidate` and `evaluateObservedCandidate` around it.
pub mod Claims
pub mod Run
pub mod Candidate
pub mod Laws
