-- ===== src/Capsule/Schema/Runs.antt =====
-- The schema of an evaluation Run (packages/weave/src/capsule/contracts.ts).
use domain_eval_weave.Base.{Bool, ◌&&◌, all}
use domain_eval_weave.Capsule.Contracts.{Diagnostic, ClaimResult, ExecutionRecord, EvaluationRun}
use domain_eval_weave.Capsule.Schema.Patterns.{
  id_matches, version_matches, sha256_matches, code_matches, non_empty, optional, unique_strings,
  unique_by,
}

unfoldable pub diagnostic_schema : Diagnostic → Bool
diagnostic_schema d = code_matches d.code && non_empty d.message && optional non_empty d.locator

unfoldable pub claim_result_schema : ClaimResult → Bool
unfolding diagnostic_schema
claim_result_schema c =
    id_matches c.claim_id && unique_strings 0 c.check_ids && all diagnostic_schema c.diagnostics

unfoldable pub execution_schema : ExecutionRecord → Bool
execution_schema e =
    optional non_empty e.signal && sha256_matches e.stdout_sha256 && sha256_matches e.stderr_sha256

unfoldable pub evaluation_run_schema : EvaluationRun → Bool
evaluation_run_schema r =
    id_matches r.run_id
    && sha256_matches r.capsule_release_sha256
    && id_matches r.requirement_id
    && id_matches r.evaluator.evaluator_id
    && version_matches r.evaluator.version
    && id_matches r.candidate_id
    && sha256_matches r.candidate_sha256
    && unique_by claim_result_schema (λ c. c.claim_id) r.claims
    && execution_schema r.execution
    && all diagnostic_schema r.diagnostics
