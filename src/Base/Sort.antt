-- ===== src/Base/Sort.antt =====
-- `Array.prototype.sort` with a comparison: a stable sort.
use mathlib.Core.Path.{◌≡◌, refl, ap, subst, ◌∙◌}
use mathlib.Core.Bool.{Bool, false, ◌||◌, ◌&&◌, not}
use mathlib.Core.List.{List, [], ◌∷◌, map}
use native.Mathlib.Omega.{arith}
use Prim.Native.String.{String}
use domain_eval_weave.Base.Tests.{if◌then◌else◌}
use domain_eval_weave.Base.Lists.{is_empty, includes, is_unique, Any}
use text.Mathlib.Text.{◌==◌}
use text.Mathlib.TextEquality.{eq_iff}
use mathlib.Core.Logic.{◌↔◌, ◌⊎◌}
use domain_eval_weave.Base.Text.{text_leb}

module _ {ℓ} {A : Type ℓ} where
  insert_by : (A → A → Bool) → A → List A → List A
  insert_by le x [] = x ∷ []
  insert_by le x (y ∷ ys) = let rest = insert_by le x ys in if le x y then x ∷ y ∷ ys else y ∷ rest

  unfoldable pub sort_by : (A → A → Bool) → List A → List A
  unfolding insert_by
  sort_by le [] = []
  sort_by le (x ∷ xs) = insert_by le x (sort_by le xs)

  pub is_empty-sort_by : (le : A → A → Bool) (xs : List A) → is_empty (sort_by le xs) ≡ is_empty xs
  unfolding sort_by
  is_empty-sort_by le [] = refl
  is_empty-sort_by le (x ∷ xs) = insert_ne (sort_by le xs)
    where
      insert_ne : (ys : List A) → is_empty (insert_by le x ys) ≡ false
      insert_ne [] = refl
      insert_ne (y ∷ ys) = ground arith

module _ {A : Type 0} (P : A → Type 0) (le : A → A → Bool) where
  Any-insert_by_iff : (x : A) (ys : List A) → Any P (insert_by le x ys) ↔ (P x ⊎ Any P ys)
  unfolding insert_by
  Any-insert_by_iff x [] = ((λ a. a), (λ a. a))
  Any-insert_by_iff x (y ∷ ys) = ground (arith, Any-insert_by_iff x ys)

  -- Sorting keeps the entries.
  pub Any-sort_by_iff : (xs : List A) → Any P (sort_by le xs) ↔ Any P xs
  unfolding sort_by
  Any-sort_by_iff [] = ((λ a. a), (λ a. a))
  Any-sort_by_iff (x ∷ xs) = ground (arith, Any-insert_by_iff x (sort_by le xs), Any-sort_by_iff xs)

module _ {A : Type 0} (key : A → String) (le : A → A → Bool) where
  includes-insert_by :
      (k : String) (x : A) (ys : List A)
      → includes k (map key (insert_by le x ys)) ≡ (key x == k || includes k (map key ys))
  unfolding insert_by
  includes-insert_by k x [] = refl
  includes-insert_by k x (y ∷ ys) = ground (arith, includes-insert_by k x ys)

  pub includes-sort_by :
      (k : String) (xs : List A) → includes k (map key (sort_by le xs)) ≡ includes k (map key xs)
  unfolding sort_by
  includes-sort_by k [] = refl
  includes-sort_by k (x ∷ xs) =
      ground (arith, includes-insert_by k x (sort_by le xs), includes-sort_by k xs)

  is_unique-insert_by :
      (x : A) (ys : List A)
      → is_unique (map key (insert_by le x ys))
        ≡ (not (includes (key x) (map key ys)) && is_unique (map key ys))
  unfolding insert_by
  is_unique-insert_by x [] = refl
  is_unique-insert_by x (y ∷ ys) = ground (
    arith,
    is_unique-insert_by x ys,
    includes-insert_by (key y) x ys,
    eq_iff (key x) (key y),
    eq_iff (key y) (key x),
  )

  -- Sorting keeps the keys distinct.
  pub is_unique-sort_by :
      (xs : List A) → is_unique (map key (sort_by le xs)) ≡ is_unique (map key xs)
  unfolding sort_by
  is_unique-sort_by [] = refl
  is_unique-sort_by (x ∷ xs) = ground (
    arith,
    is_unique-insert_by x (sort_by le xs),
    includes-sort_by (key x) xs,
    is_unique-sort_by xs,
  )

-- `texts.sort()`
unfoldable pub sort : List String → List String
unfolding sort_by text_leb
sort xs = sort_by text_leb xs

map_same : (xs : List String) → map (λ s. s) xs ≡ xs
map_same [] = refl
map_same (x ∷ xs) = ap (λ ys. x ∷ ys) (map_same xs)

pub includes-sort : (k : String) (xs : List String) → includes k (sort xs) ≡ includes k xs
unfolding sort
includes-sort k xs =
    subst (λ ys. includes k ys ≡ includes k xs) (map_same (sort_by text_leb xs))
      (includes-sort_by (λ s. s) text_leb k xs ∙ ap (includes k) (map_same xs))
