-- ===== src/Domain/Index.antt =====
-- A `Map<string, Set<string>>` or `Record<string, string[]>` as the graph code builds and reads it,
-- entries in the order of insertion.
use domain_eval_weave.Base.{
  refl, ◌+◌, ◌≡◌, String, true, none, some, List, [], ◌∷◌, ◌++◌, ◌==◌, ◌||◌, ◌↔◌, ◌⊎◌, arith,
  eq_iff, length, includes, map_get, if◌then◌else◌,
}

abbrev pub Index : Type 0
Index = List (String × List String)

abbrev pub entry_key : String × List String → String
entry_key (key, values) = key

-- `index.get(x) ?? []`
abbrev pub lookup : Index → String → List String
lookup index x = elim (map_get entry_key x index) [ none ↦ [] | some (key, values) ↦ values ]

-- `set.add(x)`
abbrev pub set_add : List String → String → List String
set_add xs x = if includes x xs then xs else xs ++ (x ∷ [])

pub includes-append :
    (k : String) (xs ys : List String) → includes k (xs ++ ys) ≡ (includes k xs || includes k ys)
includes-append k [] ys = refl
includes-append k (x ∷ xs) ys = ground (arith, includes-append k xs ys)

pub includes-set_add :
    (k x : String) (xs : List String)
    → (includes k (set_add xs x) ≡ true) ↔ ((includes k xs ≡ true) ⊎ (x ≡ k))
includes-set_add k x xs = ground (arith, includes-append k xs (x ∷ []), eq_iff x k)

pub length-append : (xs ys : List String) → length (xs ++ ys) ≡ length xs + length ys
length-append [] ys = omega arith
length-append (x ∷ xs) ys = ground (arith, length-append xs ys)

-- `index.get(key)?.push(x)`: where there is no such key nothing changes.
abbrev pub update_at : (List String → List String) → String → Index → Index
update_at f key [] = []
update_at f key ((k, values) ∷ rest) =
    (if k == key then (k, f values) else (k, values)) ∷ update_at f key rest
