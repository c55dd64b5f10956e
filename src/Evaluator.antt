-- ===== src/Evaluator.antt =====
-- packages/weave/src/evaluator: checks on a Candidate's output, the Run that they make, its
-- persistence and replay, and the calibration of an Evaluator.
pub mod Observation
pub mod Check
pub mod Rebuild
pub mod Encode
pub mod Engine
pub mod Calibration
