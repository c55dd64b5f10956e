-- ===== src/Tests/Runs.antt =====
-- Evaluations of the small Capsule.
use domain_eval_weave.Capsule.Lookup.{
  find_requirement, find_evaluator, find_candidate, evaluator_reference,
}
use domain_eval_weave.Base.{
  template, sort_by, all_codes, codes_count, decimal, join, take, trim, text_leb, ◌≡◌, refl, ◌≢◌,
  inl, inr, ◌↔◌, String, true, [], ◌∷◌, All, Any, none, some, map, not, is_empty,
}
use domain_eval_weave.Evaluator.Engine.Claims.{
  judge_edges, judge_checks, judge_claim, judge_edge, run_check, status_of, required_edges,
}
use domain_eval_weave.Evaluator.Check.{evaluate_check, canonical_equal, CheckResult, CheckStatus}
use domain_eval_weave.Evaluator.Engine.Run.{
  document_of, execution_diagnostics, seal_run, provisional_run, all_diagnostics,
  evaluate_execution, PersistedEvaluationRun, ExecutionInput, run_ref,
}
use domain_eval_weave.Evaluator.Observation.{parse_document, select, property, step}
use domain_eval_weave.Json.{
  canonical_json, serialize, JsonValue, num, finite, arr, obj, field, end, Items,
}
use domain_eval_weave.Capsule.Schema.Parse.{parse_evaluation_run}
use domain_eval_weave.Capsule.Schema.Runs.{
  evaluation_run_schema, claim_result_schema, diagnostic_schema, execution_schema,
}
use domain_eval_weave.Capsule.Schema.Patterns.{
  id_matches, code_matches, non_empty, sha256_matches, unique_by, unique_strings, version_matches,
}
use domain_eval_weave.Capsule.Schema.Documents.{is_confirmed}
use domain_eval_weave.Capsule.Semantics.{status_name}
use domain_eval_weave.Evaluator.Encode.{run_body, run_json}
use domain_eval_weave.Evaluator.Rebuild.{rebuild_run, rebuilt, validity_of, verdict_of, statuses_of}
use domain_eval_weave.Json.Quote.{quote}
use domain_eval_weave.Platform.{canonical_json_digest, IsHexDigest}
use domain_eval_weave.Base.Result.{ok, canonical_json_error}
use domain_eval_weave.Capsule.Contracts.{
  EvaluationRun, ClaimResult, accept, reject, undecided, pass, fail, RequirementEdge,
  RequirementDelta, key, preserves, json_array_count_equals, EvaluatorCheck,
}
use domain_eval_weave.Evaluator.Check.Laws.{json_path_equals-pass_iff}
use domain_eval_weave.Evaluator.Check.Count.{Matching, json_array_count_equals-pass_iff}
use domain_eval_weave.Json.Build.{array, object}
use domain_eval_weave.Evaluator.Rebuild.Laws.{
  IsConclusive, rebuild_run-accept_iff, rebuild_run-reject_iff, rebuild_run-rebuild_run,
}
use domain_eval_weave.Evaluator.Engine.Candidate.{replay_evaluation_run}
use domain_eval_weave.Evaluator.Engine.Laws.Throws.{Throws}
use domain_eval_weave.Evaluator.Engine.Laws.Verdict.{
  evaluate_execution-accept_iff, evaluate_execution-binds, evaluate_execution-undecided,
  IsDemonstrated, final_diagnostics, early_diagnostics,
}
use domain_eval_weave.Evaluator.Engine.Laws.Faults.{
  evaluate_execution-repeated_claim, evaluate_execution-Throws,
}
use domain_eval_weave.Evaluator.Engine.Laws.Replay.{replay_evaluation_run-evaluate_execution}
use domain_eval_weave.Tests.{
  platform, capsule, judge, delta, edge, total_check, total_claim, total_three, input_of,
  execution_of, the_value, the_value-ok, is_ok, digest, release,
}

abbrev accepted_input : ExecutionInput
accepted_input = input_of "{\"total\":3}\n"

accepted_is_ok : is_ok (evaluate_execution platform accepted_input) ≡ true
unfolding find_requirement find_evaluator find_candidate evaluator_reference template judge_edges
    evaluate_check document_of execution_diagnostics parse_document select canonical_equal
    canonical_json seal_run parse_evaluation_run evaluation_run_schema id_matches provisional_run
    sort_by all_codes codes_count decimal join take trim is_confirmed code_matches non_empty
    sha256_matches unique_by unique_strings version_matches claim_result_schema diagnostic_schema
    execution_schema status_name run_body run_json judge_checks judge_claim judge_edge run_check
    status_of all_diagnostics property step rebuild_run rebuilt validity_of verdict_of quote
    serialize canonical_json_digest text_leb evaluate_execution
accepted_is_ok = refl

abbrev out : PersistedEvaluationRun
out = the_value (evaluate_execution platform accepted_input) accepted_is_ok

returns : evaluate_execution platform accepted_input ≡ ok out
returns = the_value-ok _ accepted_is_ok

finds_requirement : find_requirement capsule "checkout" ≡ ok delta
unfolding find_requirement
finds_requirement = refl

finds_evaluator : find_evaluator capsule "judge@1.0.0" ≡ ok judge
unfolding find_evaluator evaluator_reference template
finds_evaluator = refl

evaluate_execution-accept_iff_example : (out.run.verdict ≡ accept) ↔ (
    (required_edges delta.edges ≢ [])
    × All (IsDemonstrated platform accepted_input judge) (required_edges delta.edges))
evaluate_execution-accept_iff_example =
    evaluate_execution-accept_iff platform accepted_input out returns delta judge finds_requirement
      finds_evaluator

evaluate_execution-binds_example :
    (map (λ r. ClaimResult.claim_id r) out.run.claims
      ≡ map (λ e. RequirementEdge.claim_id e) (required_edges delta.edges))
    × (out.run.capsule_release_sha256 ≡ digest)
    × (out.run.candidate_id ≡ "good")
    × (out.run.candidate_sha256 ≡ digest)
    × (out.run.requirement_id ≡ "checkout")
    × (out.run.evaluator.evaluator_id ≡ "judge")
    × (out.run.evaluator.version ≡ "1.0.0")
    × (canonical_json_digest platform (run_json out.run) ≡ ok out.sha256)
    × (out.ref ≡ run_ref out.sha256)
evaluate_execution-binds_example =
    evaluate_execution-binds platform accepted_input out returns delta judge finds_requirement
      finds_evaluator

hex : IsHexDigest platform
unfolding sha256_matches all_codes codes_count
hex = record { hex = λ s. refl }

replay_evaluation_run-evaluate_execution_example :
    replay_evaluation_run platform (λ ref. ok out.run) (λ ref. ok release) out.ref ≡ ok out.run
replay_evaluation_run-evaluate_execution_example =
    replay_evaluation_run-evaluate_execution platform accepted_input out (λ ref. ok out.run)
      (λ ref. ok release) release hex returns refl refl

rebuilds_is_ok : is_ok (rebuild_run out.run) ≡ true
unfolding find_requirement find_evaluator find_candidate evaluator_reference template judge_edges
    evaluate_check document_of execution_diagnostics parse_document select canonical_equal
    canonical_json seal_run parse_evaluation_run evaluation_run_schema id_matches provisional_run
    sort_by all_codes codes_count decimal join take trim is_confirmed code_matches non_empty
    sha256_matches unique_by unique_strings version_matches claim_result_schema diagnostic_schema
    execution_schema status_name run_body run_json judge_checks judge_claim judge_edge run_check
    status_of all_diagnostics property step rebuild_run rebuilt validity_of verdict_of quote
    serialize canonical_json_digest text_leb evaluate_execution
rebuilds_is_ok = refl

abbrev again : EvaluationRun
again = the_value (rebuild_run out.run) rebuilds_is_ok

rebuilds : rebuild_run out.run ≡ ok again
rebuilds = the_value-ok _ rebuilds_is_ok

rebuild_run-accept_iff_example :
    (again.verdict ≡ accept)
    ↔ ((statuses_of out.run ≢ []) × All (λ s. s ≡ pass) (statuses_of out.run))
rebuild_run-accept_iff_example = rebuild_run-accept_iff out.run again rebuilds

rebuild_run-reject_iff_example :
    (again.verdict ≡ reject)
    ↔ (All IsConclusive (statuses_of out.run) × Any (λ s. s ≡ fail) (statuses_of out.run))
rebuild_run-reject_iff_example = rebuild_run-reject_iff out.run again rebuilds

rebuild_run-rebuild_run_example : rebuild_run again ≡ ok again
rebuild_run-rebuild_run_example = rebuild_run-rebuild_run out.run again rebuilds

abbrev garbled_input : ExecutionInput
garbled_input = input_of "total: 3"

garbled_is_ok : is_ok (evaluate_execution platform garbled_input) ≡ true
unfolding find_requirement find_evaluator find_candidate evaluator_reference template judge_edges
    evaluate_check document_of execution_diagnostics parse_document select canonical_equal
    canonical_json seal_run parse_evaluation_run evaluation_run_schema id_matches provisional_run
    sort_by all_codes codes_count decimal join take trim is_confirmed code_matches non_empty
    sha256_matches unique_by unique_strings version_matches claim_result_schema diagnostic_schema
    execution_schema status_name run_body run_json judge_checks judge_claim judge_edge run_check
    status_of all_diagnostics property step rebuild_run rebuilt validity_of verdict_of quote
    serialize canonical_json_digest text_leb evaluate_execution
garbled_is_ok = refl

abbrev garbled_out : PersistedEvaluationRun
garbled_out = the_value (evaluate_execution platform garbled_input) garbled_is_ok

garbled : parse_document platform garbled_input.execution ≡ none
unfolding parse_document trim
garbled = refl

evaluate_execution-undecided_example : garbled_out.run.verdict ≡ undecided
evaluate_execution-undecided_example =
    evaluate_execution-undecided platform garbled_input garbled_out (the_value-ok _ garbled_is_ok)
      (inr (inr (inr garbled)))

checked_is_ok : is_ok (evaluate_check total_check (execution_of "") (some total_three)) ≡ true
unfolding find_requirement find_evaluator find_candidate evaluator_reference template judge_edges
    evaluate_check document_of execution_diagnostics parse_document select canonical_equal
    canonical_json seal_run parse_evaluation_run evaluation_run_schema id_matches provisional_run
    sort_by all_codes codes_count decimal join take trim is_confirmed code_matches non_empty
    sha256_matches unique_by unique_strings version_matches claim_result_schema diagnostic_schema
    execution_schema status_name run_body run_json judge_checks judge_claim judge_edge run_check
    status_of all_diagnostics property step rebuild_run rebuilt validity_of verdict_of quote
    serialize canonical_json_digest text_leb evaluate_execution
checked_is_ok = refl

abbrev checked : CheckResult
checked = the_value (evaluate_check total_check (execution_of "") (some total_three)) checked_is_ok

json_path_equals-pass_iff_example : (checked.status ≡ CheckStatus.pass) ↔ (
    (value : JsonValue) × (text : String) × (select total_three (key "total" ∷ []) ≡ some value)
    × (canonical_json value ≡ ok text)
    × (canonical_json (num (finite "3")) ≡ ok text))
json_path_equals-pass_iff_example =
    json_path_equals-pass_iff (execution_of "") total_check (key "total" ∷ []) (num (finite "3"))
      total_three refl checked (the_value-ok _ checked_is_ok)

-- Any object is counted; a number and an array are not.
abbrev any_object : EvaluatorCheck
any_object = record total_check { kind = json_array_count_equals (key "effects" ∷ []) [] 1 }

abbrev effects : JsonValue
effects = obj (field "effects" (array (num (finite "5") ∷ object [] ∷ array [] ∷ [])) end)

counted_is_ok : is_ok (evaluate_check any_object (execution_of "") (some effects)) ≡ true
unfolding evaluate_check select step property template decimal join
counted_is_ok = refl

abbrev counted : CheckResult
counted = the_value (evaluate_check any_object (execution_of "") (some effects)) counted_is_ok

counted_passes : counted.status ≡ CheckStatus.pass
unfolding evaluate_check select step property template decimal join
counted_passes = refl

json_array_count_equals-pass_iff_example : (counted.status ≡ CheckStatus.pass) ↔ (
    (items : Items) × (select effects (key "effects" ∷ []) ≡ some (arr items))
    × Matching [] items 1)
json_array_count_equals-pass_iff_example =
    json_array_count_equals-pass_iff (execution_of "") [] any_object (key "effects" ∷ []) 1 effects
      refl counted (the_value-ok _ counted_is_ok)

-- A Requirement that uses a Claim and preserves it too.
abbrev twice : RequirementDelta
twice = record delta { edges = edge ∷ record edge { relation = preserves } ∷ [] }

abbrev twice_input : ExecutionInput
twice_input = record accepted_input { capsule = record capsule { requirements = twice ∷ [] } }

finds_twice : find_requirement twice_input.capsule twice_input.requirement_id ≡ ok twice
unfolding find_requirement
finds_twice = refl

evaluate_execution-repeated_claim_example : evaluate_execution platform twice_input ≢ ok out
evaluate_execution-repeated_claim_example =
    evaluate_execution-repeated_claim platform twice_input twice finds_twice refl out

abbrev infinite_input : ExecutionInput
infinite_input = input_of "{\"total\":1e999}"

infinite-Throws :
    Any
      (Throws capsule "judge@1.0.0" judge.checks infinite_input.execution
        (document_of platform infinite_input.execution (early_diagnostics platform infinite_input))
        (not (is_empty (final_diagnostics platform infinite_input))))
      (required_edges delta.edges)
unfolding find_requirement find_evaluator find_candidate evaluator_reference template judge_edges
    evaluate_check document_of execution_diagnostics parse_document select canonical_equal
    canonical_json seal_run parse_evaluation_run evaluation_run_schema id_matches provisional_run
    sort_by all_codes codes_count decimal join take trim is_confirmed code_matches non_empty
    sha256_matches unique_by unique_strings version_matches claim_result_schema diagnostic_schema
    execution_schema status_name run_body run_json judge_checks judge_claim judge_edge run_check
    status_of all_diagnostics property step rebuild_run rebuilt validity_of verdict_of quote
    serialize canonical_json_digest text_leb evaluate_execution
infinite-Throws =
    inl (total_claim, refl, refl, inl (canonical_json_error "non-finite number at $", refl))

evaluate_execution-Throws_example : evaluate_execution platform infinite_input ≢ ok out
evaluate_execution-Throws_example =
    evaluate_execution-Throws platform infinite_input delta finds_requirement judge finds_evaluator
      infinite-Throws out
