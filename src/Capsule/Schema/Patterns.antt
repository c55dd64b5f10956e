-- ===== src/Capsule/Schema/Patterns.antt =====
-- The patterns and the list schemas that packages/weave/src/capsule/contracts.ts builds on.
use Prim.Native.Char.{code}
use Prim.Native.String.{String, [], ◌∷◌}
use domain_eval_weave.Base.{
  ℕ, ◌+◌, if◌then◌else◌, Bool, true, false, ◌&&◌, ◌||◌, not, Option, none, some, List, map, leb,
  eqb, ◌==◌, all, any, is_unique, length, is_digit, is_upper, is_lower, all_codes, codes_count,
  starts_with, has_part, split,
}

-- `[A-Za-z0-9._-]`
abbrev pub id_code : ℕ → Bool
id_code c = is_digit c || is_upper c || is_lower c || eqb c b'.' || eqb c b'_' || eqb c b'-'

-- `/^[A-Za-z0-9][A-Za-z0-9._-]{0,n}$/`
name_matches : ℕ → String → Bool
unfolding all_codes codes_count
name_matches n [] = false
name_matches n (c ∷ s) =
    (is_digit (code c) || is_upper (code c) || is_lower (code c))
    && all_codes id_code s
    && leb (codes_count s) n

unfoldable pub id_matches : String → Bool
unfolding name_matches
id_matches s = name_matches 127 s

unfoldable pub version_matches : String → Bool
unfolding name_matches
version_matches s = name_matches 63 s

abbrev hex_code : ℕ → Bool
hex_code c = is_digit c || (leb b'a' c && leb c b'f')

-- `/^[0-9a-f]{64}$/`
unfoldable pub sha256_matches : String → Bool
unfolding all_codes codes_count
sha256_matches s = all_codes hex_code s && eqb (codes_count s) 64

-- `/^[A-Z][A-Z0-9_]*$/`
unfoldable pub code_matches : String → Bool
unfolding all_codes
code_matches [] = false
code_matches (c ∷ s) =
    is_upper (code c) && all_codes (λ d. is_upper d || is_digit d || eqb d b'_') s

-- `value.length`, which counts UTF-16 code units.
abbrev units_count : String → ℕ
units_count [] = 0
units_count (c ∷ s) = (if leb 0x10000 (code c) then 2 else 1) + units_count s

-- `z.string().min(low).max(high)`
unfoldable pub bounded : ℕ → ℕ → String → Bool
bounded low high s = leb low (units_count s) && leb (units_count s) high

-- `z.string().min(1)`
unfoldable pub non_empty : String → Bool
unfolding codes_count
non_empty s = leb 1 (codes_count s)

unfoldable pub relative_path_matches : String → Bool
unfolding bounded starts_with has_part split
relative_path_matches s =
    bounded 1 512 s
    && not (starts_with s "/")
    && not (has_part s "\\")
    && not (has_part s "://")
    && not (any (λ part. part == "" || part == "." || part == "..") (split b'/' s))

abbrev pub optional {ℓ} : {A : Type ℓ} → (A → Bool) → Option A → Bool
optional p none = true
optional p (some a) = p a

-- `uniqueStrings(minimum)`
unfoldable pub unique_strings : ℕ → List String → Bool
unfolding id_matches
unique_strings minimum values =
    all id_matches values && leb minimum (length values) && is_unique values

-- `uniqueBy(schema, key)`
unfoldable pub unique_by {ℓ} : {A : Type ℓ} → (A → Bool) → (A → String) → List A → Bool
unique_by schema key values = all schema values && is_unique (map key values)
