-- ===== src/Json/Build.antt =====
-- Object and array literals, and what every value of a closed form serialises to.
use domain_eval_weave.Base.{String, List, [], ◌∷◌, map, Option, none, some}
use domain_eval_weave.Json.{JsonValue, str, arr, obj, Items, nil, cons, Fields, end, field}

abbrev items_of : List JsonValue → Items
items_of [] = nil
items_of (v ∷ vs) = cons v (items_of vs)

abbrev pub array : List JsonValue → JsonValue
array vs = arr (items_of vs)

abbrev fields_of : List (String × JsonValue) → Fields
fields_of [] = end
fields_of ((k, v) ∷ rest) = field k v (fields_of rest)

abbrev pub object : List (String × JsonValue) → JsonValue
object fields = obj (fields_of fields)

abbrev pub texts : List String → JsonValue
texts ss = array (map (λ s. str s) ss)

-- A property that is left out where its value is undefined.
abbrev pub optional_field : String → Option String → List (String × JsonValue)
optional_field k none = []
optional_field k (some s) = (k, str s) ∷ []
