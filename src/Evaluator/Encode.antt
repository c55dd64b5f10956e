-- ===== src/Evaluator/Encode.antt =====
-- A Run and a Release as the JSON values that the program digests and writes
-- (packages/weave/src/capsule/contracts.ts). Integers are written by `String(n)`.
use domain_eval_weave.Base.{
  ℕ, ℤ, int_decimal, String, Option, none, some, List, [], ◌∷◌, map, decimal,
}
use domain_eval_weave.Json.{JsonValue, null, bool, num, finite, str}
use domain_eval_weave.Json.Build.{object, array, texts, optional_field}
use domain_eval_weave.Capsule.Schema.Documents.{relation_name}
use domain_eval_weave.Capsule.Contracts.{
  Diagnostic, ClaimResult, Axis, requirement_delta, domain_preservation, ResultStatus, pass, fail,
  inconclusive, measurement_error, MeasurementValidity, valid, insufficient, invalid, Verdict,
  accept, reject, undecided, ExecutionRecord, EvaluationRun, ReleaseEntry, DerivedEdge,
  CapsuleRelease,
}

abbrev number : ℕ → JsonValue
number n = num (finite (decimal n))

abbrev version_one : String × JsonValue
version_one = ("schema_version", number 1)

abbrev pub status_text : ResultStatus → String
status_text pass = "pass"
status_text fail = "fail"
status_text inconclusive = "inconclusive"
status_text measurement_error = "measurement_error"

abbrev axis_text : Axis → String
axis_text requirement_delta = "requirement_delta"
axis_text domain_preservation = "domain_preservation"

abbrev validity_text : MeasurementValidity → String
validity_text valid = "valid"
validity_text insufficient = "insufficient"
validity_text invalid = "invalid"

abbrev verdict_text : Verdict → String
verdict_text accept = "accept"
verdict_text reject = "reject"
verdict_text undecided = "inconclusive"

diagnostic_json : Diagnostic → JsonValue
diagnostic_json d =
    object (("code", str d.code) ∷ ("message", str d.message) ∷ optional_field "locator" d.locator)

claim_result_json : ClaimResult → JsonValue
unfolding diagnostic_json
claim_result_json c = object (
    ("claim_id", str c.claim_id)
    ∷ ("axis", str (axis_text c.axis))
    ∷ ("status", str (status_text c.status))
    ∷ ("check_ids", texts c.check_ids)
    ∷ ("diagnostics", array (map diagnostic_json c.diagnostics))
    ∷ [])

abbrev exit_code_json : Option ℤ → JsonValue
exit_code_json none = null
exit_code_json (some code) = num (finite (int_decimal code))

abbrev signal_json : Option String → JsonValue
signal_json none = null
signal_json (some name) = str name

execution_json : ExecutionRecord → JsonValue
execution_json e = object (
    ("exit_code", exit_code_json e.exit_code)
    ∷ ("signal", signal_json e.signal)
    ∷ ("stdout_sha256", str e.stdout_sha256)
    ∷ ("stderr_sha256", str e.stderr_sha256)
    ∷ ("timed_out", bool e.timed_out)
    ∷ ("output_limit_exceeded", bool e.output_limit_exceeded)
    ∷ [])

-- `const { run_id, ...body } = run`
unfoldable pub run_body : EvaluationRun → List (String × JsonValue)
unfolding claim_result_json execution_json diagnostic_json
run_body r =
    version_one
    ∷ ("capsule_release_sha256", str r.capsule_release_sha256)
    ∷ ("requirement_id", str r.requirement_id)
    ∷ (
      "evaluator",
      object (
          ("evaluator_id", str r.evaluator.evaluator_id)
          ∷ ("version", str r.evaluator.version)
          ∷ []),
    )
    ∷ ("candidate_id", str r.candidate_id)
    ∷ ("candidate_sha256", str r.candidate_sha256)
    ∷ ("measurement_validity", str (validity_text r.measurement_validity))
    ∷ ("verdict", str (verdict_text r.verdict))
    ∷ ("claims", array (map claim_result_json r.claims))
    ∷ ("execution", execution_json r.execution)
    ∷ ("diagnostics", array (map diagnostic_json r.diagnostics))
    ∷ []

unfoldable pub run_json : EvaluationRun → JsonValue
unfolding run_body
run_json r = object (("run_id", str r.run_id) ∷ run_body r)

unfoldable pub entry_json : ReleaseEntry → JsonValue
entry_json e =
    object (("path", str e.path) ∷ ("sha256", str e.sha256) ∷ ("size", number e.size) ∷ [])

abbrev edge_json : DerivedEdge → JsonValue
edge_json e = object (
    ("requirement_id", str e.requirement_id)
    ∷ ("claim_id", str e.claim_id)
    ∷ ("relation", str (relation_name e.relation))
    ∷ ("required", bool e.required)
    ∷ [])

unfoldable pub release_json : CapsuleRelease → JsonValue
unfolding entry_json
release_json r = object (
    version_one
    ∷ ("capsule_id", str r.capsule_id)
    ∷ ("capsule_version", str r.capsule_version)
    ∷ ("entries", array (map entry_json r.entries))
    ∷ (
      "derived",
      object (
          ("claims", texts r.claims)
          ∷ ("requirement_edges", array (map (λ e. edge_json e) r.requirement_edges))
          ∷ []),
    )
    ∷ [])
