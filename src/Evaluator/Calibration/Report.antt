-- ===== src/Evaluator/Calibration/Report.antt =====
-- `calibrateEvaluator` of packages/weave/src/evaluator/calibration.ts.
use domain_eval_weave.Base.{
  String, Bool, true, false, ◌&&◌, not, Option, none, some, List, [], ◌∷◌, ◌++◌, map, filter, all,
  any, is_empty, flat_map, map_get, ◌==◌, if◌then◌else◌, sort,
}
use domain_eval_weave.Base.Result.{schema_error, Result, ok, require, map_results, ◌>>=◌, ◌>>◌}
use domain_eval_weave.Platform.{Platform}
use domain_eval_weave.Capsule.Contracts.{
  ClaimResult, ResultStatus, fail, EvaluationRun, EvaluatorPackage, EvaluatorId, ExpectedClaim,
  CaseKind, gold, equivalent, mutant, CalibrationCase, LoadedCapsule,
}
use domain_eval_weave.Capsule.Lookup.{find_evaluator}
use domain_eval_weave.Capsule.Schema.Patterns.{sha256_matches, non_empty, code_matches}
use domain_eval_weave.Capsule.Semantics.{targets}
use domain_eval_weave.Evaluator.Encode.{status_text}
use domain_eval_weave.Evaluator.Engine.Candidate.{ReleasedCapsule, Runner, evaluate_candidate}

-- An actual status of "missing" is `none`.
pub record Mismatch : Type 0 where
  pub claim_id : String
  pub expected : ResultStatus
  pub actual : Option ResultStatus

pub record CaseResult : Type 0 where
  pub case_id : String
  pub kind : CaseKind
  pub matched : Bool
  pub mismatches : List Mismatch

pub record CalibrationReport : Type 0 where
  pub capsule_release_sha256 : String
  pub evaluator : EvaluatorId
  pub qualified : Bool
  pub diagnostics : List String
  pub failed_case_ids : List String
  pub cases : List CaseResult

-- `actual.get(id)`
unfoldable pub status_at : EvaluationRun → String → Option ResultStatus
status_at run id = elim (map_get (λ c. ClaimResult.claim_id c) id run.claims) [
  | none ↦ none
  | some c ↦ some c.status
]

abbrev pub status_is : Option ResultStatus → ResultStatus → Bool
status_is none expected = false
status_is (some s) expected = status_text s == status_text expected

unfoldable pub expected_mismatch : EvaluationRun → ExpectedClaim → List Mismatch
expected_mismatch run e =
    if status_is (status_at run e.claim_id) e.status
    then []
    else record { claim_id = e.claim_id; expected = e.status; actual = status_at run e.claim_id }
      ∷ []

-- The loop over a mutant's targets, which pushes onto the mismatches that it is given.
unfoldable pub add_target_mismatches : EvaluationRun → List String → List Mismatch → List Mismatch
add_target_mismatches run [] mismatches = mismatches
add_target_mismatches run (target ∷ rest) mismatches = add_target_mismatches run rest (
    if not (status_is (status_at run target) fail)
      && not (any (λ m. Mismatch.claim_id m == target) mismatches)
    then mismatches
      ++ record { claim_id = target; expected = fail; actual = status_at run target } ∷ []
    else mismatches)

unfoldable pub case_mismatches : EvaluationRun → CalibrationCase → List Mismatch
unfolding expected_mismatch add_target_mismatches
case_mismatches run c =
    add_target_mismatches run (targets c.target_claim_ids)
      (flat_map (expected_mismatch run) c.expected_claims)

unfoldable pub case_result : EvaluationRun → CalibrationCase → CaseResult
case_result run c =
    let mismatches = case_mismatches run c in
    record {
      case_id = c.case_id;
      kind = c.kind;
      matched = is_empty mismatches;
      mismatches = mismatches;
    }

abbrev pub is_gold : CaseKind → Bool
is_gold gold = true
is_gold _ = false

abbrev pub is_equivalent : CaseKind → Bool
is_equivalent equivalent = true
is_equivalent _ = false

abbrev pub is_mutant : CaseKind → Bool
is_mutant mutant = true
is_mutant _ = false

-- The codes of the kinds of case that are missing.
unfoldable pub kind_diagnostics : List CalibrationCase → List String
kind_diagnostics cases =
    (if any (λ c. is_gold (CalibrationCase.kind c)) cases
      then []
      else "CALIBRATION_GOLD_MISSING" ∷ [])
    ++ ((if any (λ c. is_equivalent (CalibrationCase.kind c)) cases
          then []
          else "CALIBRATION_EQUIVALENT_MISSING" ∷ [])
        ++ (if any (λ c. is_mutant (CalibrationCase.kind c)) cases
            then []
            else "CALIBRATION_MUTANT_MISSING" ∷ []))

unfoldable pub failed_cases : List CaseResult → List String
failed_cases results =
    sort (map (λ r. CaseResult.case_id r) (filter (λ r. not (CaseResult.matched r)) results))

unfoldable pub calibration_report_schema : CalibrationReport → Bool
calibration_report_schema r =
    sha256_matches r.capsule_release_sha256
    && non_empty r.evaluator.evaluator_id
    && non_empty r.evaluator.version
    && all code_matches r.diagnostics
    && all non_empty r.failed_case_ids
    && all
        (λ c.
          non_empty (CaseResult.case_id c)
          && all (λ m. non_empty (Mismatch.claim_id m)) c.mismatches)
        r.cases

-- The report from the results of the cases.
unfoldable pub build_report :
    ReleasedCapsule → EvaluatorPackage → List CalibrationCase → List CaseResult → CalibrationReport
build_report released evaluator cases results =
    let failed = failed_cases results in
    let diagnostics = kind_diagnostics cases in
    record {
      capsule_release_sha256 = released.sha256;
      evaluator = record { evaluator_id = evaluator.evaluator_id; version = evaluator.version };
      qualified = is_empty failed && is_empty diagnostics;
      diagnostics = diagnostics;
      failed_case_ids = failed;
      cases = results;
    }

module _ (p : Platform) (capsule : LoadedCapsule) (released : ReleasedCapsule)
    (evaluator_ref : String) (runner : Runner) where
  unfoldable pub calibrate_case : EvaluatorPackage → CalibrationCase → Result CaseResult
  calibrate_case evaluator c = do
    evaluated ←
        evaluate_candidate p capsule released evaluator_ref evaluator.requirement_id c.candidate_id
          runner
    ok (case_result evaluated.run c)

  unfoldable pub calibrate_evaluator : Result CalibrationReport
  calibrate_evaluator = do
    evaluator ← find_evaluator capsule evaluator_ref
    results ← map_results (calibrate_case evaluator) capsule.cases
    let report = build_report released evaluator capsule.cases results
    require (calibration_report_schema report) (schema_error "CalibrationReport")
    ok report
