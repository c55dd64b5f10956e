-- ===== src/Evaluator/Calibration/Compare.antt =====
-- `compareEvaluators` of packages/weave/src/evaluator/calibration.ts. The left Evaluator calls the
-- shared runner first, and throws first.
pub mod Changes
pub mod Laws
use domain_eval_weave.Base.{
  String, Option, none, some, List, [], ◌∷◌, is_empty, flat_map, ◌==◌, if◌then◌else◌,
}
use domain_eval_weave.Base.Result.{Result, ok, err, ◌>>=◌}
use domain_eval_weave.Platform.{Platform}
use domain_eval_weave.Capsule.Contracts.{
  CapsuleCandidate, ClaimResult, ResultStatus, EvaluationRun, CalibrationCase, LoadedCapsule,
}
use domain_eval_weave.Evaluator.Encode.{status_text}
use domain_eval_weave.Evaluator.Engine.Candidate.{
  ReleasedCapsule, RunnerOutcome, BoundCandidate, bind_candidate, judge_candidate,
}
use domain_eval_weave.Evaluator.Engine.Run.{PersistedEvaluationRun}
use domain_eval_weave.Evaluator.Calibration.Report.{status_at}

pub record ClaimChange : Type 0 where
  pub claim_id : String
  pub left : ResultStatus
  pub right : ResultStatus

pub record ChangedCase : Type 0 where
  pub case_id : String
  pub claim_changes : List ClaimChange

pub record EvaluatorComparison : Type 0 where
  pub left : String
  pub right : String
  pub changed_cases : List ChangedCase

abbrev pub change_of : ClaimResult → Option ResultStatus → List ClaimChange
change_of claim none = []
change_of claim (some right) =
    if status_text right == status_text claim.status
    then []
    else record { claim_id = claim.claim_id; left = claim.status; right = right } ∷ []

unfoldable pub claim_changes : EvaluationRun → EvaluationRun → List ClaimChange
claim_changes left right =
    flat_map (λ c. change_of c (status_at right (ClaimResult.claim_id c))) left.claims

abbrev pub with_changes : String → List ClaimChange → List ChangedCase → List ChangedCase
with_changes case_id changes rest =
    if is_empty changes then rest else record { case_id = case_id; claim_changes = changes } ∷ rest

-- A runner whose answers may differ from call to call, with the state that they depend on.
abbrev pub StatefulRunner : Type 0 → Type 0
StatefulRunner W = CapsuleCandidate → W → RunnerOutcome × W

-- `sharedExecution`, with `none` for undefined, and the state of the runner.
abbrev pub Shared : Type 0 → Type 0
Shared W = Option RunnerOutcome × W

-- `sharedRunner.run`, which calls `delegate` only the first time.
abbrev pub shared_run :
    {W : Type 0} → StatefulRunner W → CapsuleCandidate → Shared W → RunnerOutcome × Shared W
shared_run delegate candidate (some outcome, w) = (outcome, (some outcome, w))
shared_run delegate candidate (none, w) =
    let (outcome, next) = delegate candidate w in (outcome, (some outcome, next))

module _ {W : Type 0} (p : Platform) (capsule : LoadedCapsule) (released : ReleasedCapsule)
    (requirement_id left_ref right_ref : String) (delegate : StatefulRunner W) where
  abbrev pub run_bound :
      String → Result BoundCandidate → Shared W → Result PersistedEvaluationRun × Shared W
  run_bound evaluator_ref (err e) shared = (err e, shared)
  run_bound evaluator_ref (ok bound) shared =
      let (outcome, next) = shared_run delegate bound.candidate shared in
      (judge_candidate p capsule released evaluator_ref requirement_id bound outcome, next)

  -- `evaluateCandidate` with the shared runner.
  unfoldable pub evaluate_shared :
      String → CalibrationCase → Shared W → Result PersistedEvaluationRun × Shared W
  evaluate_shared evaluator_ref c shared =
      run_bound evaluator_ref (bind_candidate p capsule released c.candidate_id) shared

  unfoldable pub compare_case : CalibrationCase → W → Result (List ClaimChange × W)
  unfolding evaluate_shared
  compare_case c w =
      let (left_run, shared) = evaluate_shared left_ref c (none, w) in
      let (right_run, last) = evaluate_shared right_ref c shared in
      left_run >>= λ left. right_run >>= λ right. ok (claim_changes left.run right.run, last.1)

  unfoldable pub compare_cases : List CalibrationCase → W → Result (List ChangedCase)
  compare_cases [] w = ok []
  compare_cases (c ∷ cases) w = compare_case c w >>= λ compared.
      compare_cases cases compared.1 >>= λ rest. ok (with_changes c.case_id compared.0 rest)

  unfoldable pub compare_evaluators : W → Result EvaluatorComparison
  unfolding compare_cases
  compare_evaluators w = do
    changed ← compare_cases capsule.cases w
    ok (record { left = left_ref; right = right_ref; changed_cases = changed })
