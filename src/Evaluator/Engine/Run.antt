-- ===== src/Evaluator/Engine/Run.antt =====
-- `evaluateExecution` and `persistRun` of packages/weave/src/evaluator/engine.ts.
use domain_eval_weave.Base.{
  String, not, Option, none, some, List, [], ◌∷◌, ◌++◌, is_empty, is_some, ◌==◌, if◌then◌else◌,
  template, take,
}
use domain_eval_weave.Base.Result.{capsule_error, Result, ok, require, ◌>>=◌, ◌>>◌}
use domain_eval_weave.Json.{JsonValue, canonical_json}
use domain_eval_weave.Json.Build.{object}
use domain_eval_weave.Platform.{Platform, canonical_json_digest}
use domain_eval_weave.Artifacts.{Store, write_exclusive_or_verify}
use domain_eval_weave.Capsule.Contracts.{
  RequirementDelta, EvaluatorPackage, Diagnostic, ClaimResult, invalid, undecided, EvaluationRun,
  ExecutionRecord, LoadedCapsule,
}
use domain_eval_weave.Capsule.Lookup.{find_requirement, find_evaluator}
use domain_eval_weave.Capsule.Schema.Parse.{parse_evaluation_run}
use domain_eval_weave.Evaluator.Observation.{CandidateExecution, parse_document}
use domain_eval_weave.Evaluator.Rebuild.{rebuild_run}
use domain_eval_weave.Evaluator.Encode.{run_body, run_json}
use domain_eval_weave.Evaluator.Engine.Claims.{judge_edges}

pub record PersistedEvaluationRun : Type 0 where
  pub run : EvaluationRun
  pub sha256 : String
  pub ref : String

abbrev pub plain_diagnostic : String → String → Diagnostic
plain_diagnostic code message = record { code = code; message = message; locator = none }

-- The diagnostics that the execution itself adds to the ones it is given.
unfoldable pub execution_diagnostics : CandidateExecution → List Diagnostic → List Diagnostic
execution_diagnostics execution initial =
    initial
    ++ ((if execution.timed_out
          then plain_diagnostic "CANDIDATE_TIMEOUT" "Candidate timed out" ∷ []
          else [])
        ++ (if execution.output_limit_exceeded
            then plain_diagnostic "CANDIDATE_OUTPUT_LIMIT" "Candidate exceeded output limit" ∷ []
            else []))

-- The document that the checks read, if nothing went wrong before.
unfoldable pub document_of : Platform → CandidateExecution → List Diagnostic → Option JsonValue
document_of p execution diagnostics =
    if is_empty diagnostics then parse_document p execution else none

unfoldable pub all_diagnostics : Platform → CandidateExecution → List Diagnostic → List Diagnostic
unfolding document_of
all_diagnostics p execution diagnostics =
    if is_empty diagnostics
    then (if is_some (document_of p execution diagnostics)
        then []
        else plain_diagnostic "CANDIDATE_OUTPUT_INVALID"
            "Candidate stdout must contain exactly one JSON document"
          ∷ [])
    else diagnostics

abbrev pub run_ref : String → String
run_ref sha256 = template (".eval/runs/" ∷ sha256 ∷ ".json" ∷ [])

pub record ExecutionInput : Type 0 where
  pub capsule : LoadedCapsule
  pub release_sha256 : String
  pub evaluator_ref : String
  pub requirement_id : String
  pub candidate_id : String
  pub candidate_sha256 : String
  pub execution : CandidateExecution
  pub initial_diagnostics : List Diagnostic

module _ (p : Platform) where
  execution_record : CandidateExecution → ExecutionRecord
  execution_record e = record {
    exit_code = e.exit_code;
    signal = e.signal;
    stdout_sha256 = p.sha256_hex e.stdout;
    stderr_sha256 = p.sha256_hex e.stderr;
    timed_out = e.timed_out;
    output_limit_exceeded = e.output_limit_exceeded;
  }

  unfoldable pub provisional_run :
      ExecutionInput
      → RequirementDelta
      → EvaluatorPackage
      → List ClaimResult
      → List Diagnostic
      → EvaluationRun
  unfolding execution_record
  provisional_run input requirement evaluator claims diagnostics = record {
    run_id = "pending";
    capsule_release_sha256 = input.release_sha256;
    requirement_id = requirement.requirement_id;
    evaluator = record { evaluator_id = evaluator.evaluator_id; version = evaluator.version };
    candidate_id = input.candidate_id;
    candidate_sha256 = input.candidate_sha256;
    measurement_validity = invalid;
    verdict = undecided;
    claims = claims;
    execution = execution_record input.execution;
    diagnostics = diagnostics;
  }

  -- From the provisional Run to the one that is returned: its id binds its body, and its verdict
  -- is rebuilt.
  unfoldable pub seal_run : EvaluationRun → Result PersistedEvaluationRun
  seal_run provisional = do
    parsed ← parse_evaluation_run provisional
    digest ← canonical_json_digest p (object (run_body parsed))
    run ← rebuild_run (record parsed { run_id = template ("run-" ∷ take 24 digest ∷ []) })
    sha256 ← canonical_json_digest p (run_json run)
    ok (record { run = run; sha256 = sha256; ref = run_ref sha256 })

  unfoldable pub evaluate_execution : ExecutionInput → Result PersistedEvaluationRun
  evaluate_execution input = do
    requirement ← find_requirement input.capsule input.requirement_id
    evaluator ← find_evaluator input.capsule input.evaluator_ref
    require (evaluator.requirement_id == requirement.requirement_id) (
        capsule_error "CAPSULE_EVALUATOR_REQUIREMENT_MISMATCH"
          (template (
            "Evaluator " ∷ input.evaluator_ref ∷ " does not evaluate " ∷ requirement.requirement_id
            ∷ []))
          none)
    let early = execution_diagnostics input.execution input.initial_diagnostics
    let diagnostics = all_diagnostics p input.execution early
    claims ←
        judge_edges input.capsule input.evaluator_ref evaluator.checks input.execution
          (document_of p input.execution early) (not (is_empty diagnostics)) requirement.edges
    seal_run (provisional_run input requirement evaluator claims diagnostics)

  -- `persistRun`: the bytes are the canonical text and a line feed.
  unfoldable pub persist_run : PersistedEvaluationRun → Store → Result Store
  persist_run persisted store = do
    text ← canonical_json (run_json persisted.run)
    write_exclusive_or_verify persisted.ref (template (text ∷ "\n" ∷ []))
        (capsule_error "CAPSULE_RUN_COLLISION" "Existing Run contains different bytes"
          (some persisted.ref))
        store
