-- ===== src/Capsule/Contracts/Run.antt =====
-- The evaluation Run of packages/weave/src/capsule/contracts.ts.
use domain_eval_weave.Base.{ℤ, String, Bool, Option, List}

pub data Axis : Type 0 where
  requirement_delta domain_preservation : Axis

pub data ResultStatus : Type 0 where
  pass fail inconclusive measurement_error : ResultStatus

pub data MeasurementValidity : Type 0 where
  valid insufficient invalid : MeasurementValidity

-- The verdict "inconclusive" is `undecided`, apart from the status of that name.
pub data Verdict : Type 0 where
  accept reject undecided : Verdict

pub record Diagnostic : Type 0 where
  pub code : String
  pub message : String
  pub locator : Option String

pub record ClaimResult : Type 0 where
  pub claim_id : String
  pub axis : Axis
  pub status : ResultStatus
  pub check_ids : List String
  pub diagnostics : List Diagnostic

pub record ExecutionRecord : Type 0 where
  pub exit_code : Option ℤ
  pub signal : Option String
  pub stdout_sha256 : String
  pub stderr_sha256 : String
  pub timed_out : Bool
  pub output_limit_exceeded : Bool

pub record EvaluatorId : Type 0 where
  pub evaluator_id : String
  pub version : String

pub record EvaluationRun : Type 0 where
  pub run_id : String
  pub capsule_release_sha256 : String
  pub requirement_id : String
  pub evaluator : EvaluatorId
  pub candidate_id : String
  pub candidate_sha256 : String
  pub measurement_validity : MeasurementValidity
  pub verdict : Verdict
  pub claims : List ClaimResult
  pub execution : ExecutionRecord
  pub diagnostics : List Diagnostic
