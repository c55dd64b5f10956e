-- ===== src/Evaluator/Check.antt =====
-- `evaluateCheck` of packages/weave/src/evaluator/engine.ts. The canonical serialiser that it calls
-- may throw, and so may the check.
pub mod Laws
pub mod Count
use domain_eval_weave.Base.{
  ℕ, suc, ◌+◌, ℤ, int_eq, int_decimal, String, Bool, true, false, Option, none, some, List, [], ◌∷◌,
  map, ◌==◌, eqb, if◌then◌else◌, template, decimal, join,
}
use domain_eval_weave.Base.Result.{Result, ok, err, ◌>>=◌}
use domain_eval_weave.Json.{
  JsonValue, arr, obj, object_prototype, exotic, non_plain_object, symbol_key, accessor, Items, nil,
  cons, canonical_json,
}
use domain_eval_weave.Capsule.Contracts.{
  Segment, index, key, CheckKind, exit_code_equals, json_path_equals, json_array_count_equals,
  EvaluatorCheck,
}
use domain_eval_weave.Evaluator.Observation.{CandidateExecution, property, select}

pub data CheckStatus : Type 0 where
  pass fail measurement_error : CheckStatus

pub record CheckResult : Type 0 where
  pub status : CheckStatus
  pub message : Option String

abbrev pub passed : CheckResult
passed = record { status = pass; message = none }

abbrev pub failed : List String → CheckResult
failed message = record { status = fail; message = some (template message) }

exit_code_is : Option ℤ → ℤ → Bool
exit_code_is none expected = false
exit_code_is (some code) expected = int_eq code expected

exit_text : Option ℤ → String
exit_text none = "null"
exit_text (some code) = int_decimal code

segment_text : Segment → String
segment_text (index i) = decimal i
segment_text (key k) = k

-- `check.path.join(".")`
path_text : List Segment → String
unfolding segment_text
path_text path = join "." (map segment_text path)

-- `canonicalJson(left) === canonicalJson(right)`
unfoldable pub canonical_equal : JsonValue → JsonValue → Result Bool
canonical_equal left right = do a ← canonical_json left; b ← canonical_json right; ok (a == b)

-- `Object.entries(check.where).every(…)`, which stops at the first entry that differs.
matches_where : JsonValue → List (String × JsonValue) → Result Bool
matches_where entry [] = ok true
matches_where entry ((k, expected) ∷ rest) = elim (property entry k) [
  | none ↦ ok false
  | some value ↦ (do
    same ← canonical_equal value expected
    (let later = matches_where entry rest in if same then later else ok false))
]

-- `typeof entry !== "object" || entry === null || Array.isArray(entry)` is false.
pub is_record : JsonValue → Bool
is_record (obj fields) = true
is_record object_prototype = true
is_record (exotic non_plain_object) = true
is_record (exotic symbol_key) = true
is_record (exotic (accessor name)) = true
is_record _ = false

-- The test of one entry, which only an object passes.
pub matches_entry : JsonValue → List (String × JsonValue) → Result Bool
unfolding is_record matches_where
matches_entry entry conditions = elim (is_record entry) [
  | true ↦ matches_where entry conditions
  | false ↦ ok false
]

-- `selected.value.filter(…).length`
count_matching : Items → List (String × JsonValue) → Result ℕ
unfolding matches_entry
count_matching nil conditions = ok 0
count_matching (cons entry rest) conditions = do
  here ← matches_entry entry conditions
  later ← count_matching rest conditions
  ok (if here then suc later else later)

compare_count : ℕ → ℕ → CheckResult
compare_count count expected =
    if eqb count expected
    then passed
    else failed
        ("matching effect count " ∷ decimal count ∷ " did not equal " ∷ decimal expected ∷ [])

-- The end of `evaluateCheck`, at the value that the path selects.
check_array : List Segment → List (String × JsonValue) → ℕ → JsonValue → Result CheckResult
unfolding count_matching compare_count path_text
check_array path conditions expected_count (arr items) = do
  count ← count_matching items conditions
  ok (compare_count count expected_count)
check_array path conditions expected_count value =
    ok (failed ("public observation " ∷ path_text path ∷ " is not an array" ∷ []))

pub at_path :
    List Segment → Option JsonValue → (JsonValue → Result CheckResult) → Result CheckResult
unfolding path_text
at_path path none check = ok (record {
  status = measurement_error;
  message = some "Candidate stdout was not one JSON document";
})
at_path path (some document) check = elim (select document path) [
  | none ↦ ok (failed ("public observation path " ∷ path_text path ∷ " is missing" ∷ []))
  | some value ↦ check value
]

check_equal : List Segment → JsonValue → JsonValue → Result CheckResult
unfolding path_text
check_equal path expected value = do
  same ← canonical_equal value expected
  ok (
      if same
      then passed
      else failed ("public observation " ∷ path_text path ∷ " did not equal expectation" ∷ []))

evaluate_kind : CheckKind → CandidateExecution → Option JsonValue → Result CheckResult
unfolding exit_code_is exit_text at_path check_equal check_array
evaluate_kind (exit_code_equals expected) execution document = ok (
    if exit_code_is execution.exit_code expected
    then passed
    else failed (
        "exit code "
        ∷ exit_text execution.exit_code
        ∷ " did not equal "
        ∷ int_decimal expected
        ∷ []))
evaluate_kind (json_path_equals path expected) execution document =
    at_path path document (check_equal path expected)
evaluate_kind (json_array_count_equals path conditions expected_count) execution document =
    at_path path document (check_array path conditions expected_count)

unfoldable pub evaluate_check :
    EvaluatorCheck → CandidateExecution → Option JsonValue → Result CheckResult
unfolding evaluate_kind
evaluate_check check execution document = evaluate_kind check.kind execution document
