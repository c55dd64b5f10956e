-- ===== src/Evaluator/Calibration.antt =====
-- packages/weave/src/evaluator/calibration.ts: an Evaluator is calibrated by running it on cases
-- whose outcome is known, and two Evaluators are compared case by case.
pub mod Report
pub mod Laws
pub mod Compare
pub mod Reports
