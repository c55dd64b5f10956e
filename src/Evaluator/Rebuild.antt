-- ===== src/Evaluator/Rebuild.antt =====
-- `rebuildRun` of packages/weave/src/evaluator/engine.ts: the validity and the verdict of a Run
-- follow from the statuses of its Claims.
pub mod Laws
use domain_eval_weave.Base.{Bool, true, false, List, [], ◌∷◌, map, any, is_empty, if◌then◌else◌}
use domain_eval_weave.Base.Result.{Result}
use domain_eval_weave.Capsule.Contracts.{
  ResultStatus, pass, fail, inconclusive, measurement_error, MeasurementValidity, valid,
  insufficient, invalid, Verdict, accept, reject, undecided, ClaimResult, EvaluationRun,
}
use domain_eval_weave.Capsule.Schema.Parse.{parse_evaluation_run}

abbrev pub is_error : ResultStatus → Bool
is_error measurement_error = true
is_error _ = false

abbrev pub is_inconclusive : ResultStatus → Bool
is_inconclusive inconclusive = true
is_inconclusive _ = false

abbrev pub is_fail : ResultStatus → Bool
is_fail fail = true
is_fail _ = false

unfoldable pub validity_of : List ResultStatus → MeasurementValidity
validity_of statuses =
    if any is_error statuses
    then invalid
    else if any is_inconclusive statuses
    then insufficient
    else valid

abbrev is_valid : MeasurementValidity → Bool
is_valid valid = true
is_valid _ = false

unfoldable pub verdict_of : MeasurementValidity → List ResultStatus → Verdict
verdict_of validity statuses =
    if is_valid validity
    then (if any is_fail statuses then reject else if is_empty statuses then undecided else accept)
    else undecided

abbrev pub statuses_of : EvaluationRun → List ResultStatus
statuses_of run = map (λ c. ClaimResult.status c) run.claims

unfoldable pub rebuilt : EvaluationRun → EvaluationRun
unfolding validity_of verdict_of
rebuilt run =
    let statuses = statuses_of run in
    record run {
      measurement_validity = validity_of statuses;
      verdict = verdict_of (validity_of statuses) statuses;
    }

unfoldable pub rebuild_run : EvaluationRun → Result EvaluationRun
unfolding rebuilt
rebuild_run run = parse_evaluation_run (rebuilt run)
