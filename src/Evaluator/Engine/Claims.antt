-- ===== src/Evaluator/Engine/Claims.antt =====
-- The loop of `evaluateExecution` over the required edges of a Requirement
-- (packages/weave/src/evaluator/engine.ts).
use domain_eval_weave.Base.{
  String, Bool, true, false, ◌||◌, Option, none, some, List, [], ◌∷◌, map, any, filter, flat_map,
  ◌==◌, if◌then◌else◌, template,
}
use domain_eval_weave.Base.Result.{capsule_error, Result, ok, or_throw, map_results, ◌>>=◌}
use domain_eval_weave.Json.{JsonValue}
use domain_eval_weave.Capsule.Contracts.{
  Claim, Relation, preserves, RequirementEdge, EvaluatorCheck, Diagnostic, ClaimResult, Axis,
  requirement_delta, domain_preservation, ResultStatus, pass, fail, inconclusive, measurement_error,
  LoadedCapsule,
}
use domain_eval_weave.Capsule.Schema.Documents.{is_confirmed}
use domain_eval_weave.Capsule.Semantics.{claim_of, status_name}
use domain_eval_weave.Evaluator.Observation.{CandidateExecution}
use domain_eval_weave.Evaluator.Check.{CheckStatus, CheckResult, evaluate_check}

abbrev pub axis_of : Relation → Axis
axis_of preserves = domain_preservation
axis_of _ = requirement_delta

-- A check with its result.
pub record Outcome : Type 0 where
  pub check : EvaluatorCheck
  pub result : CheckResult

abbrev pub is_unmeasured : Outcome → Bool
is_unmeasured o = elim o.result.status [ CheckStatus.measurement_error ↦ true | _ ↦ false ]

abbrev pub is_failed : Outcome → Bool
is_failed o = elim o.result.status [ CheckStatus.fail ↦ true | _ ↦ false ]

unfoldable pub status_of : Bool → List Outcome → ResultStatus
status_of has_diagnostics outcomes =
    if has_diagnostics || any is_unmeasured outcomes
    then measurement_error
    else if any is_failed outcomes
    then fail
    else pass

abbrev outcome_code : CheckStatus → String
outcome_code CheckStatus.measurement_error = "OBSERVATION_INVALID"
outcome_code _ = "CLAIM_CHECK_FAILED"

abbrev diagnostics_of : String → CheckStatus → Option String → String → List Diagnostic
diagnostics_of evaluator_ref status none check_id = []
diagnostics_of evaluator_ref status (some message) check_id =
    record {
      code = outcome_code status;
      message = message;
      locator = some (template (evaluator_ref ∷ "#" ∷ check_id ∷ []));
    }
    ∷ []

pub outcome_diagnostics : String → Outcome → List Diagnostic
outcome_diagnostics evaluator_ref o =
    diagnostics_of evaluator_ref o.result.status o.result.message o.check.check_id

unconfirmed_result : Claim → Axis → ClaimResult
unconfirmed_result claim axis = record {
  claim_id = claim.claim_id;
  axis = axis;
  status = inconclusive;
  check_ids = [];
  diagnostics =
      record {
        code = "CLAIM_NOT_CONFIRMED";
        message = template (status_name claim.status ∷ " Claim cannot form a hard verdict" ∷ []);
        locator = some (template ("domain.yaml#" ∷ claim.claim_id ∷ []));
      }
      ∷ [];
}

unobserved_result : String → Claim → Axis → ClaimResult
unobserved_result evaluator_ref claim axis = record {
  claim_id = claim.claim_id;
  axis = axis;
  status = inconclusive;
  check_ids = [];
  diagnostics =
      record {
        code = "CLAIM_NOT_OBSERVED";
        message = "Confirmed Claim has no check in this Evaluator";
        locator = some (template (evaluator_ref ∷ "#" ∷ claim.claim_id ∷ []));
      }
      ∷ [];
}

-- `evaluator.checks.filter((check) => check.claim_id === claim.claim_id)`
abbrev pub checks_of : String → List EvaluatorCheck → List EvaluatorCheck
checks_of claim_id checks = filter (λ k. EvaluatorCheck.claim_id k == claim_id) checks

-- The edges that the loop does not `continue` past.
abbrev pub required_edges : List RequirementEdge → List RequirementEdge
required_edges edges = filter (λ e. RequirementEdge.required e) edges

module _ (capsule : LoadedCapsule) (evaluator_ref : String) (all_checks : List EvaluatorCheck)
    (execution : CandidateExecution) (document : Option JsonValue) (has_diagnostics : Bool) where
  unfoldable pub run_check : EvaluatorCheck → Result Outcome
  run_check check = do
    result ← evaluate_check check execution document
    ok (record { check = check; result = result })

  judged_result : Claim → Axis → List EvaluatorCheck → List Outcome → ClaimResult
  unfolding outcome_diagnostics
  judged_result claim axis checks outcomes = record {
    claim_id = claim.claim_id;
    axis = axis;
    status = status_of has_diagnostics outcomes;
    check_ids = map (λ k. EvaluatorCheck.check_id k) checks;
    diagnostics = flat_map (outcome_diagnostics evaluator_ref) outcomes;
  }

  unfoldable pub judge_checks : Claim → Axis → List EvaluatorCheck → Result ClaimResult
  unfolding judged_result unobserved_result run_check
  judge_checks claim axis [] = ok (unobserved_result evaluator_ref claim axis)
  judge_checks claim axis (k ∷ ks) = do
    outcomes ← map_results run_check (k ∷ ks)
    ok (judged_result claim axis (k ∷ ks) outcomes)

  unfoldable pub judge_claim : Claim → Axis → Result ClaimResult
  unfolding judge_checks unconfirmed_result is_confirmed
  judge_claim claim axis =
      if is_confirmed claim.status
      then judge_checks claim axis (checks_of claim.claim_id all_checks)
      else ok (unconfirmed_result claim axis)

  unfoldable pub judge_edge : RequirementEdge → Result ClaimResult
  judge_edge edge = do
    claim ←
        or_throw (claim_of capsule edge.claim_id)
          (capsule_error "CAPSULE_CLAIM_UNKNOWN" edge.claim_id none)
    judge_claim claim (axis_of edge.relation)

  -- The Claim results, in the order of the required edges.
  unfoldable pub judge_edges : List RequirementEdge → Result (List ClaimResult)
  unfolding judge_edge judge_claim
  judge_edges edges = map_results judge_edge (required_edges edges)
