-- ===== src/Evaluator/Observation.antt =====
-- What a Candidate's execution shows (`CandidateExecution` of
-- packages/weave/src/evaluator/command-runner.ts), and `parseDocument` and `select` of engine.ts.
use domain_eval_weave.Base.{
  ℕ, zero, suc, ℤ, String, Bool, ◌||◌, Option, none, some, List, [], ◌∷◌, ◌==◌, includes,
  if◌then◌else◌, trim,
}
use domain_eval_weave.Json.{
  JsonValue, null, arr, obj, exotic, object_prototype, unsupported, Items, nil, cons, Fields, end,
  field,
}
use domain_eval_weave.Platform.{Platform}
use domain_eval_weave.Capsule.Contracts.{Segment, index, key}

pub record CandidateExecution : Type 0 where
  pub exit_code : Option ℤ
  pub signal : Option String
  pub stdout : String
  pub stderr : String
  pub timed_out : Bool
  pub output_limit_exceeded : Bool

unfoldable pub parse_document : Platform → CandidateExecution → Option JsonValue
unfolding trim
parse_document p execution =
    if execution.timed_out || execution.output_limit_exceeded
    then none
    else p.parse_json (trim execution.stdout)

item : Items → ℕ → Option JsonValue
item nil i = none
item (cons v rest) zero = some v
item (cons v rest) (suc i) = item rest i

own_property : Fields → String → Option JsonValue
own_property end k = none
own_property (field j v rest) k = if j == k then some v else own_property rest k

-- The functions that every plain object inherits from `Object.prototype`.
abbrev inherited_functions : List String
inherited_functions =
    "constructor" ∷ "__defineGetter__" ∷ "__defineSetter__" ∷ "hasOwnProperty" ∷ "__lookupGetter__"
    ∷ "__lookupSetter__" ∷ "isPrototypeOf" ∷ "propertyIsEnumerable" ∷ "toString" ∷ "valueOf"
    ∷ "toLocaleString" ∷ []

pub inherited : JsonValue → String → Option JsonValue
inherited prototype k =
    if includes k inherited_functions
    then some (exotic (unsupported "function"))
    else if k == "__proto__"
    then some prototype
    else none

-- `k in value ? value[k]`, at a value that is an object and no array: the operator `in` also sees
-- what the object inherits.
unfoldable pub property : JsonValue → String → Option JsonValue
unfolding own_property inherited
property (obj fields) k = elim (own_property fields k) [
  | none ↦ inherited object_prototype k
  | some v ↦ some v
]
property object_prototype k = inherited null k
property _ k = none

unfoldable pub step : JsonValue → Segment → Option JsonValue
unfolding item property
step (arr items) (index i) = item items i
step value (index i) = none
step value (key k) = property value k

-- `select`, with `none` where `found` is false.
unfoldable pub select : JsonValue → List Segment → Option JsonValue
unfolding step
select document [] = some document
select document (segment ∷ path) = elim (step document segment) [
  | none ↦ none
  | some value ↦ select value path
]
