-- ===== src/Json.antt =====
-- JSON documents and their canonical text (src/contracts/canonical-json.ts, which
-- packages/weave/src/canonical-json.ts passes on). A number is given by the text of
-- `Number.prototype.toString`, which two finite numbers share only if they are equal or 0 and -0.
-- A value that `serialize` refuses before it looks inside is `exotic`, with its defect, and
-- `object_prototype` is `Object.prototype`, a plain object with no key of its own that is listed.
pub mod Quote
mod Tests
pub mod Build
use Quote.{quote}
use domain_eval_weave.Base.{
  ℕ, zero, ◌+◌, String, Bool, true, false, Option, List, [], ◌∷◌, if◌then◌else◌, template, decimal,
  join, sort_by, text_leb,
}
use domain_eval_weave.Base.Result.{Failure, canonical_json_error, Result, ok, err, ◌>>=◌}

pub data JsNumber : Type 0 where
  finite : String → JsNumber
  negative_zero non_finite : JsNumber

-- What the guards of `serialize` find wrong with an array, an object, or any other value.
pub data Defect : Type 0 where
  sparse_array non_plain_object symbol_key : Defect
  accessor unsupported : String → Defect

mutual
  pub data JsonValue : Type 0 where
    null : JsonValue
    bool : Bool → JsonValue
    num : JsNumber → JsonValue
    str : String → JsonValue
    arr : Items → JsonValue
    obj : Fields → JsonValue
    object_prototype : JsonValue
    exotic : Defect → JsonValue

  pub data Items : Type 0 where
    nil : Items
    cons : JsonValue → Items → Items

  pub data Fields : Type 0 where
    end : Fields
    field : String → JsonValue → Fields → Fields

-- `Object.is(value, -0) ? "0" : JSON.stringify(value)`
serialize_number : JsNumber → String → Result String
serialize_number (finite s) location = ok s
serialize_number negative_zero location = ok "0"
serialize_number non_finite location =
    err (canonical_json_error (template ("non-finite number at " ∷ location ∷ [])))

defect_message : Defect → String → String
defect_message sparse_array location = template ("sparse or extended array at " ∷ location ∷ [])
defect_message non_plain_object location = template ("non-plain object at " ∷ location ∷ [])
defect_message symbol_key location = template ("symbol-keyed property at " ∷ location ∷ [])
defect_message (accessor key) location =
    template ("accessor property at " ∷ location ∷ "." ∷ key ∷ [])
defect_message (unsupported type) location =
    template ("unsupported " ∷ type ∷ " at " ∷ location ∷ [])

unfoldable pub key_leb : {A : Type 0} → String × A → String × A → Bool
key_leb (j, v) (k, w) = text_leb j k

-- The properties in key order; the first that throws ends the call.
pub collect : List (String × Result String) → Result (List String)
collect [] = ok []
collect ((key, value) ∷ rest) = do
  text ← value
  texts ← collect rest
  ok (template (quote key ∷ ":" ∷ text ∷ []) ∷ texts)

unfoldable mutual
  unfolding serialize_number defect_message collect key_leb sort_by

  pub serialize : JsonValue → String → Result String
  serialize null location = ok "null"
  serialize (bool b) location = ok (if b then "true" else "false")
  serialize (num n) location = serialize_number n location
  serialize (str s) location = ok (quote s)
  serialize (arr items) location = do
    texts ← serialize_items items location 0
    ok (template ("[" ∷ join "," texts ∷ "]" ∷ []))
  serialize (obj fields) location = do
    texts ← collect (sort_by key_leb (serialize_fields fields location))
    ok (template ("{" ∷ join "," texts ∷ "}" ∷ []))
  serialize object_prototype location = ok "{}"
  serialize (exotic d) location = err (canonical_json_error (defect_message d location))

  pub serialize_items : Items → String → ℕ → Result (List String)
  serialize_items nil location index = ok []
  serialize_items (cons value rest) location index = do
    text ← serialize value (template (location ∷ "[" ∷ decimal index ∷ "]" ∷ []))
    texts ← serialize_items rest location (index + 1)
    ok (text ∷ texts)

  pub serialize_fields : Fields → String → List (String × Result String)
  serialize_fields end location = []
  serialize_fields (field key value rest) location =
      (key, serialize value (template (location ∷ "." ∷ key ∷ []))) ∷ serialize_fields rest location

unfoldable pub canonical_json : JsonValue → Result String
unfolding serialize
canonical_json value = serialize value "$"
