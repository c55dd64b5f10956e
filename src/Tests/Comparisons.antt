-- ===== src/Tests/Comparisons.antt =====
-- An Evaluator of the small Capsule is compared with itself, on a runner whose answers change.
use domain_eval_weave.Capsule.Lookup.{
  find_requirement, find_evaluator, find_candidate, evaluator_reference,
}
use domain_eval_weave.Base.{
  template, sort_by, all_codes, codes_count, decimal, join, take, trim, text_leb, starts_with, drop,
  sort, ◌≡◌, refl, true, ℕ, eqb, ◌%◌, ◌+◌, if◌then◌else◌, none,
}
use domain_eval_weave.Evaluator.Engine.Claims.{
  judge_edges, judge_checks, judge_claim, judge_edge, run_check, status_of,
}
use domain_eval_weave.Evaluator.Check.{evaluate_check, canonical_equal}
use domain_eval_weave.Evaluator.Engine.Run.{
  document_of, execution_diagnostics, seal_run, provisional_run, all_diagnostics,
  evaluate_execution,
}
use domain_eval_weave.Evaluator.Observation.{parse_document, select, property, step}
use domain_eval_weave.Json.{canonical_json, serialize}
use domain_eval_weave.Capsule.Schema.Parse.{parse_evaluation_run}
use domain_eval_weave.Capsule.Schema.Runs.{
  evaluation_run_schema, claim_result_schema, diagnostic_schema, execution_schema,
}
use domain_eval_weave.Capsule.Schema.Patterns.{
  id_matches, code_matches, non_empty, sha256_matches, unique_by, unique_strings, version_matches,
}
use domain_eval_weave.Capsule.Schema.Documents.{is_confirmed}
use domain_eval_weave.Capsule.Semantics.{status_name}
use domain_eval_weave.Evaluator.Encode.{run_body, run_json, release_json, entry_json}
use domain_eval_weave.Evaluator.Rebuild.{rebuild_run, rebuilt, validity_of, verdict_of}
use domain_eval_weave.Json.Quote.{quote}
use domain_eval_weave.Platform.{canonical_json_digest}
use domain_eval_weave.Evaluator.Engine.Candidate.{
  evaluate_candidate, bind_candidate, judge_candidate, threw, assert_release, candidate_entries,
}
use domain_eval_weave.Evaluator.Calibration.Report.{
  calibrate_evaluator, calibrate_case, case_result, case_mismatches, build_report, kind_diagnostics,
  failed_cases, calibration_report_schema, expected_mismatch, add_target_mismatches, status_at,
}
use domain_eval_weave.Tests.{platform, capsule, released, runner, the_value, is_ok}
use domain_eval_weave.Evaluator.Calibration.Compare.{
  EvaluatorComparison, compare_evaluators, compare_cases, compare_case, evaluate_shared,
  StatefulRunner, claim_changes,
}

-- A runner that fails at every second call.
abbrev changing : StatefulRunner ℕ
changing candidate calls = (if eqb (calls % 2) 1 then threw none else runner candidate, calls + 1)

compared_is_ok :
    is_ok (
      compare_evaluators platform capsule released "checkout" "judge@1.0.0" "judge@1.0.0" changing
        0)
    ≡ true
unfolding find_requirement find_evaluator find_candidate evaluator_reference template judge_edges
    evaluate_check document_of execution_diagnostics parse_document select canonical_equal
    canonical_json seal_run parse_evaluation_run evaluation_run_schema id_matches provisional_run
    sort_by all_codes codes_count decimal join take trim is_confirmed code_matches non_empty
    sha256_matches unique_by unique_strings version_matches claim_result_schema diagnostic_schema
    execution_schema status_name run_body run_json judge_checks judge_claim judge_edge run_check
    status_of all_diagnostics property step rebuild_run rebuilt validity_of verdict_of quote
    serialize canonical_json_digest text_leb evaluate_execution evaluate_candidate assert_release
    candidate_entries starts_with drop sort release_json entry_json calibrate_evaluator
    calibrate_case case_result case_mismatches build_report kind_diagnostics failed_cases
    calibration_report_schema expected_mismatch add_target_mismatches status_at compare_evaluators
    compare_cases compare_case evaluate_shared bind_candidate judge_candidate claim_changes
compared_is_ok = refl

abbrev comparison : EvaluatorComparison
comparison =
    the_value
      (compare_evaluators platform capsule released "checkout" "judge@1.0.0" "judge@1.0.0" changing
        0)
      compared_is_ok
