-- ===== src/Tests/Documents.antt =====
-- The small Capsule is validated, confirmed, calibrated and inspected.
use domain_eval_weave.Capsule.Lookup.{
  find_requirement, find_evaluator, find_candidate, evaluator_reference,
}
use domain_eval_weave.Base.{
  template, sort_by, all_codes, codes_count, decimal, join, take, trim, text_leb, starts_with, drop,
  sort, ◌≡◌, refl, ◌↔◌, true, false, [], All, none, is_empty,
}
use domain_eval_weave.Evaluator.Engine.Claims.{
  judge_edges, judge_checks, judge_claim, judge_edge, run_check, status_of,
}
use domain_eval_weave.Evaluator.Check.{evaluate_check, canonical_equal}
use domain_eval_weave.Evaluator.Engine.Run.{
  document_of, execution_diagnostics, seal_run, provisional_run, all_diagnostics,
  evaluate_execution,
}
use domain_eval_weave.Evaluator.Observation.{parse_document, select, property, step}
use domain_eval_weave.Json.{canonical_json, serialize}
use domain_eval_weave.Capsule.Schema.Parse.{parse_evaluation_run, parse_capsule_domain}
use domain_eval_weave.Capsule.Schema.Runs.{
  evaluation_run_schema, claim_result_schema, diagnostic_schema, execution_schema,
}
use domain_eval_weave.Capsule.Schema.Patterns.{
  id_matches, code_matches, non_empty, sha256_matches, unique_by, unique_strings, version_matches,
  bounded,
}
use domain_eval_weave.Capsule.Schema.Documents.{is_confirmed, capsule_domain_schema}
use domain_eval_weave.Capsule.Semantics.{
  status_name, claim_confirmation_projection, validate_semantics,
}
use domain_eval_weave.Evaluator.Encode.{run_body, run_json, release_json, entry_json}
use domain_eval_weave.Evaluator.Rebuild.{rebuild_run, rebuilt, validity_of, verdict_of}
use domain_eval_weave.Json.Quote.{quote}
use domain_eval_weave.Platform.{canonical_json_digest}
use domain_eval_weave.Evaluator.Engine.Candidate.{
  evaluate_candidate, bind_candidate, judge_candidate, assert_release, candidate_entries,
}
use domain_eval_weave.Evaluator.Calibration.Report.{
  calibrate_evaluator, calibrate_case, case_result, case_mismatches, build_report, kind_diagnostics,
  failed_cases, calibration_report_schema, expected_mismatch, add_target_mismatches, status_at,
  CalibrationReport,
}
use domain_eval_weave.Capsule.Confirm.{confirm_capsule_claim, is_proposed}
use domain_eval_weave.Base.Result.{ok}
use domain_eval_weave.Capsule.Contracts.{EvaluatorPackage, CapsuleDomain, Claim}
use domain_eval_weave.Capsule.Semantics.Laws.{IsClosed, validate_semantics-ok_iff}
use domain_eval_weave.Capsule.Confirm.Laws.{Confirms, confirm_capsule_claim-Confirms}
use domain_eval_weave.Capsule.Confirm.Closed.{confirm_capsule_claim-IsClosed}
use domain_eval_weave.Capsule.Readiness.{
  next_actions, stage_of, publishable, runnable, draft, required_edges, required_claim_blockers,
  edge_blockers, runnable_evaluator_refs, is_runnable, covers, qualified_evaluator_refs,
}
use domain_eval_weave.Capsule.Readiness.Laws.{
  next_actions-nil_iff, stage_of-confirmed, IsConfirmedEdge,
}
use domain_eval_weave.Evaluator.Calibration.Laws.{
  calibrate_evaluator-qualified_iff, HasKinds, IsMatched,
}
use domain_eval_weave.Tests.{platform, capsule, released, runner, the_value, the_value-ok, is_ok}

validate_semantics-ok_iff_example :
    (validate_semantics platform capsule ≡ ok tt) ↔ IsClosed platform capsule
validate_semantics-ok_iff_example = validate_semantics-ok_iff platform capsule

validates : validate_semantics platform capsule ≡ ok tt
unfolding validate_semantics claim_confirmation_projection canonical_json_digest canonical_json
    serialize is_confirmed sort_by text_leb join quote
validates = refl

confirmed_is_ok : is_ok (confirm_capsule_claim platform capsule "tax" "ana") ≡ true
unfolding find_requirement find_evaluator find_candidate evaluator_reference template judge_edges
    evaluate_check document_of execution_diagnostics parse_document select canonical_equal
    canonical_json seal_run parse_evaluation_run evaluation_run_schema id_matches provisional_run
    sort_by all_codes codes_count decimal join take trim is_confirmed code_matches non_empty
    sha256_matches unique_by unique_strings version_matches claim_result_schema diagnostic_schema
    execution_schema status_name run_body run_json judge_checks judge_claim judge_edge run_check
    status_of all_diagnostics property step rebuild_run rebuilt validity_of verdict_of quote
    serialize canonical_json_digest text_leb evaluate_execution evaluate_candidate bind_candidate
    judge_candidate assert_release candidate_entries starts_with drop sort release_json
    confirm_capsule_claim is_proposed claim_confirmation_projection parse_capsule_domain
    capsule_domain_schema bounded
confirmed_is_ok = refl

abbrev confirmed_tax : CapsuleDomain × Claim
confirmed_tax = the_value (confirm_capsule_claim platform capsule "tax" "ana") confirmed_is_ok

confirms : confirm_capsule_claim platform capsule "tax" "ana" ≡ ok confirmed_tax
confirms = the_value-ok _ confirmed_is_ok

confirm_capsule_claim-Confirms_example :
    Confirms platform capsule "tax" "ana" confirmed_tax.0 confirmed_tax.1
confirm_capsule_claim-Confirms_example =
    confirm_capsule_claim-Confirms platform capsule "tax" "ana" confirmed_tax.0 confirmed_tax.1
      confirms

confirm_capsule_claim-IsClosed_example :
    IsClosed platform (record capsule { domain = confirmed_tax.0 })
confirm_capsule_claim-IsClosed_example =
    confirm_capsule_claim-IsClosed platform capsule "tax" "ana" confirmed_tax.0 confirmed_tax.1
      (validate_semantics-ok_iff_example.0 validates) confirms

calibrated_is_ok : is_ok (calibrate_evaluator platform capsule released "judge@1.0.0" runner) ≡ true
unfolding find_requirement find_evaluator find_candidate evaluator_reference template judge_edges
    evaluate_check document_of execution_diagnostics parse_document select canonical_equal
    canonical_json seal_run parse_evaluation_run evaluation_run_schema id_matches provisional_run
    sort_by all_codes codes_count decimal join take trim is_confirmed code_matches non_empty
    sha256_matches unique_by unique_strings version_matches claim_result_schema diagnostic_schema
    execution_schema status_name run_body run_json judge_checks judge_claim judge_edge run_check
    status_of all_diagnostics property step rebuild_run rebuilt validity_of verdict_of quote
    serialize canonical_json_digest text_leb evaluate_execution evaluate_candidate bind_candidate
    judge_candidate assert_release candidate_entries starts_with drop sort release_json entry_json
    calibrate_evaluator calibrate_case case_result case_mismatches build_report kind_diagnostics
    failed_cases calibration_report_schema expected_mismatch add_target_mismatches status_at
calibrated_is_ok = refl

abbrev report : CalibrationReport
report =
    the_value (calibrate_evaluator platform capsule released "judge@1.0.0" runner) calibrated_is_ok

qualified : report.qualified ≡ true
unfolding find_requirement find_evaluator find_candidate evaluator_reference template judge_edges
    evaluate_check document_of execution_diagnostics parse_document select canonical_equal
    canonical_json seal_run parse_evaluation_run evaluation_run_schema id_matches provisional_run
    sort_by all_codes codes_count decimal join take trim is_confirmed code_matches non_empty
    sha256_matches unique_by unique_strings version_matches claim_result_schema diagnostic_schema
    execution_schema status_name run_body run_json judge_checks judge_claim judge_edge run_check
    status_of all_diagnostics property step rebuild_run rebuilt validity_of verdict_of quote
    serialize canonical_json_digest text_leb evaluate_execution evaluate_candidate bind_candidate
    judge_candidate assert_release candidate_entries starts_with drop sort release_json entry_json
    calibrate_evaluator calibrate_case case_result case_mismatches build_report kind_diagnostics
    failed_cases calibration_report_schema expected_mismatch add_target_mismatches status_at
qualified = refl

calibrate_evaluator-qualified_iff_example :
    (evaluator : EvaluatorPackage) × (find_evaluator capsule "judge@1.0.0" ≡ ok evaluator)
    × ((report.qualified ≡ true) ↔ (
        HasKinds capsule.cases
        × All (IsMatched platform capsule released "judge@1.0.0" runner evaluator) capsule.cases))
calibrate_evaluator-qualified_iff_example =
    calibrate_evaluator-qualified_iff platform capsule released "judge@1.0.0" runner report
      (the_value-ok _ calibrated_is_ok)

next_actions-nil_iff_example : (is_empty (next_actions capsule none []) ≡ true) ↔ (
    (stage_of capsule none [] ≡ publishable)
    × (is_empty capsule.manifest.sources ≡ false)
    × (is_empty capsule.domain.claims ≡ false)
    × (is_empty capsule.cases ≡ false))
next_actions-nil_iff_example = next_actions-nil_iff capsule none []

stands : stage_of capsule none [] ≡ runnable
unfolding stage_of required_claim_blockers edge_blockers runnable_evaluator_refs is_runnable covers
    required_edges is_confirmed evaluator_reference template join sort sort_by text_leb
    qualified_evaluator_refs
stands = refl

past_draft : ¬ (stage_of capsule none [] ≡ draft)
past_draft h = cc stands

stage_of-confirmed_example :
    All (λ r. All (IsConfirmedEdge capsule) (required_edges r)) capsule.requirements
stage_of-confirmed_example = stage_of-confirmed capsule none [] past_draft
