-- ===== src/Base/Lists.antt =====
-- Lists measured by native numbers and searched by Boolean tests, and predicates over lists.
use Prim.Native.Nat.{ℕ, zero, suc}
use mathlib.Core.Path.{◌≡◌, refl, subst}
use mathlib.Core.Logic.{◌≢◌, ◌↔◌, ◌⊎◌, inl, inr}
use mathlib.Core.Bool.{Bool, true, false, ◌&&◌, ◌||◌}
use mathlib.Core.Option.{Option, none, some}
use mathlib.Core.List.{List, [], ◌∷◌, ◌++◌, map}
use native.Mathlib.Omega.{arith}
use text.Mathlib.Text.{◌==◌}
use text.Mathlib.TextEquality.{eq_iff}
use Prim.Native.String.{String}
use domain_eval_weave.Base.Tests.{if◌then◌else◌, Bool-cases, Option-cases, is_some}

module _ {ℓ} {A : Type ℓ} where
  abbrev pub length : List A → ℕ
  length [] = 0
  length (x ∷ xs) = suc (length xs)

  -- `Array.prototype.every`, `some`, `filter` and `find`.
  abbrev pub all : (A → Bool) → List A → Bool
  all p [] = true
  all p (x ∷ xs) = p x && all p xs

  abbrev pub any : (A → Bool) → List A → Bool
  any p [] = false
  any p (x ∷ xs) = p x || any p xs

  abbrev pub filter : (A → Bool) → List A → List A
  filter p [] = []
  filter p (x ∷ xs) = let rest = filter p xs in if p x then x ∷ rest else rest

  abbrev pub find : (A → Bool) → List A → Option A
  find p [] = none
  find p (x ∷ xs) = let rest = find p xs in if p x then some x else rest

  abbrev pub is_empty : List A → Bool
  is_empty [] = true
  is_empty (x ∷ xs) = false

  -- `xs[i]`
  abbrev pub get_elem? : List A → ℕ → Option A
  get_elem? [] i = none
  get_elem? (x ∷ xs) zero = some x
  get_elem? (x ∷ xs) (suc i) = get_elem? xs i

  abbrev pub last_or : Option A → Option A → Option A
  last_or none y = y
  last_or (some x) y = some x

  -- `new Map(xs.map(x => [key(x), x])).get(k)`: a later entry replaces an earlier one.
  abbrev pub map_get : (A → String) → String → List A → Option A
  map_get key k [] = none
  map_get key k (x ∷ xs) = last_or (map_get key k xs) (if key x == k then some x else none)

module _ {ℓ κ} {A : Type ℓ} {B : Type κ} where
  -- `Array.prototype.flatMap`
  abbrev pub flat_map : (A → List B) → List A → List B
  flat_map f [] = []
  flat_map f (x ∷ xs) = f x ++ flat_map f xs

-- `Array.prototype.includes` and `Set.prototype.has` on texts.
abbrev pub includes : String → List String → Bool
includes k [] = false
includes k (x ∷ xs) = x == k || includes k xs

-- `new Set(xs).size === xs.length`
abbrev pub is_unique : List String → Bool
is_unique [] = true
is_unique (x ∷ xs) = elim (includes x xs) [ true ↦ false | false ↦ is_unique xs ]

-- A predicate by recursion computes to tuples, which the tactics read and build.
module _ {ℓ} {A : Type ℓ} (P : A → Type 0) where
  abbrev pub All : List A → Type 0
  All [] = Unit
  All (x ∷ xs) = P x × All xs

  abbrev pub Any : List A → Type 0
  Any [] = ⊥
  Any (x ∷ xs) = P x ⊎ Any xs

pub includes_iff : (k : String) (xs : List String) → (includes k xs ≡ true) ↔ Any (λ x. x ≡ k) xs
includes_iff k [] = ((λ h. cc), (λ h. absurd h))
includes_iff k (x ∷ xs) = ground (arith, eq_iff x k, includes_iff k xs)

module _ {ℓ} {A : Type ℓ} (key : A → String) (k : String) where
  -- The keys of a list, as a set, hold `k` exactly when an entry has that key.
  pub includes-map_iff : (xs : List A) → (includes k (map key xs) ≡ true) ↔ Any (λ x. key x ≡ k) xs
  includes-map_iff [] = ((λ h. cc), (λ h. absurd h))
  includes-map_iff (x ∷ xs) = ground (arith, eq_iff (key x) k, includes-map_iff xs)

  pub map_get-some_iff :
      (xs : List A) → (is_some (map_get key k xs) ≡ true) ↔ Any (λ x. key x ≡ k) xs
  map_get-some_iff [] = ((λ h. cc), (λ h. absurd h))
  map_get-some_iff (x ∷ xs) = ground (arith, eq_iff (key x) k, map_get-some_iff xs)

  pub map_get-key : (xs : List A) (a : A) → map_get key k xs ≡ some a → key a ≡ k
  map_get-key [] a h = cc
  map_get-key (x ∷ xs) a h = ground (arith, eq_iff (key x) k, map_get-key xs a)

  -- What holds of every entry holds of the entry found.
  pub map_get-All :
      (P : A → Type 0) (xs : List A) (a : A) → All P xs → map_get key k xs ≡ some a → P a
  map_get-All P [] a hs h = cc
  map_get-All P (x ∷ xs) a (p, ps) h = elim (Option-cases (map_get key k xs)) [
    | inr (b, e) ↦ map_get-All P xs a ps (ground arith)
    | inl e ↦ let same : x ≡ a = ground arith in subst P same p
  ]

  pub find-key : (xs : List A) (a : A) → find (λ x. key x == k) xs ≡ some a → key a ≡ k
  find-key [] a h = cc
  find-key (x ∷ xs) a h = ground (arith, eq_iff (key x) k, find-key xs a)

  pub find-some_iff :
      (xs : List A) → (is_some (find (λ x. key x == k) xs) ≡ true) ↔ Any (λ x. key x ≡ k) xs
  find-some_iff [] = ((λ h. cc), (λ h. absurd h))
  find-some_iff (x ∷ xs) = ground (arith, eq_iff (key x) k, find-some_iff xs)

module _ {ℓ} {A : Type ℓ} where
  pub find-All :
      (p : A → Bool) (P : A → Type 0) (xs : List A) (a : A) → All P xs → find p xs ≡ some a → P a
  find-All p P [] a hs h = cc
  find-All p P (x ∷ xs) a (q, qs) h = elim (Bool-cases (p x)) [
    | inl e ↦ let same : x ≡ a = ground arith in subst P same q
    | inr e ↦ find-All p P xs a qs (ground arith)
  ]

  pub All-map : {P Q : A → Type 0} (xs : List A) → ((x : A) → P x → Q x) → All P xs → All Q xs
  All-map [] f h = tt
  All-map (x ∷ xs) f h = (f x h.0, All-map xs f h.1)

  pub all_iff : (p : A → Bool) (xs : List A) → (all p xs ≡ true) ↔ All (λ x. p x ≡ true) xs
  all_iff p [] = ((λ h. tt), (λ h. refl))
  all_iff p (x ∷ xs) = ground (arith, all_iff p xs)

module _ {ℓ} {A : Type ℓ} where
  -- `Array.prototype.findIndex`, with `none` for -1.
  abbrev pub find_index : (A → Bool) → List A → Option ℕ
  find_index p [] = none
  find_index p (x ∷ xs) =
      let rest = find_index p xs in
      if p x then some 0 else elim rest [ none ↦ none | some i ↦ some (suc i) ]

-- Two lists of one length whose entries are related in turn.
module _ {A B : Type 0} (R : A → B → Type 0) where
  abbrev pub Pointwise : List A → List B → Type 0
  Pointwise [] [] = Unit
  Pointwise [] (y ∷ ys) = ⊥
  Pointwise (x ∷ xs) [] = ⊥
  Pointwise (x ∷ xs) (y ∷ ys) = R x y × Pointwise xs ys

module _ {A B : Type 0} {R : A → B → Type 0} where
  pub Pointwise-map :
      {S : A → B → Type 0} (xs : List A) (ys : List B)
      → ((x : A) (y : B) → R x y → S x y)
      → Pointwise R xs ys
      → Pointwise S xs ys
  Pointwise-map [] [] f h = tt
  Pointwise-map [] (y ∷ ys) f h = absurd h
  Pointwise-map (x ∷ xs) [] f h = absurd h
  Pointwise-map (x ∷ xs) (y ∷ ys) f h = (f x y h.0, Pointwise-map xs ys f h.1)

  -- Where related entries satisfy equivalent predicates, so do the lists.
  pub Pointwise-All :
      {P : A → Type 0} {Q : B → Type 0} (xs : List A) (ys : List B)
      → ((x : A) (y : B) → R x y → Q y ↔ P x)
      → Pointwise R xs ys
      → All Q ys ↔ All P xs
  Pointwise-All [] [] f h = ((λ a. tt), (λ a. tt))
  Pointwise-All [] (y ∷ ys) f h = absurd h
  Pointwise-All (x ∷ xs) [] f h = absurd h
  Pointwise-All (x ∷ xs) (y ∷ ys) f h =
      let ih = Pointwise-All xs ys f h.1 in
      let here = f x y h.0 in ((λ a. (here.0 a.0, ih.0 a.1)), (λ a. (here.1 a.0, ih.1 a.1)))

  -- Related entries have the same keys.
  pub Pointwise-keys :
      (f : A → String) (g : B → String) (xs : List A) (ys : List B)
      → ((x : A) (y : B) → R x y → g y ≡ f x)
      → Pointwise R xs ys
      → map g ys ≡ map f xs
  Pointwise-keys f g [] [] k h = refl
  Pointwise-keys f g [] (y ∷ ys) k h = absurd h
  Pointwise-keys f g (x ∷ xs) [] k h = absurd h
  Pointwise-keys f g (x ∷ xs) (y ∷ ys) k h = rw (k x y h.0, Pointwise-keys f g xs ys k h.1) refl

module _ {A B : Type 0} (R : A → B → Type 0) where
  pub Pointwise-nil : (xs : List A) (ys : List B) → Pointwise R xs ys → (ys ≢ []) ↔ (xs ≢ [])
  Pointwise-nil [] [] h = ((λ n. absurd (n refl)), (λ n. absurd (n refl)))
  Pointwise-nil [] (y ∷ ys) h = absurd h
  Pointwise-nil (x ∷ xs) [] h = absurd h
  Pointwise-nil (x ∷ xs) (y ∷ ys) h = ((λ n. λ e. cc), (λ n. λ e. cc))

  pub Pointwise-All_right :
      {Q : B → Type 0} (xs : List A) (ys : List B)
      → ((x : A) (y : B) → R x y → Q y)
      → Pointwise R xs ys
      → All Q ys
  Pointwise-All_right [] [] f h = tt
  Pointwise-All_right [] (y ∷ ys) f h = absurd h
  Pointwise-All_right (x ∷ xs) [] f h = absurd h
  Pointwise-All_right (x ∷ xs) (y ∷ ys) f h = (f x y h.0, Pointwise-All_right xs ys f h.1)

  pub Pointwise-Any :
      {P : A → Type 0} (xs : List A) (ys : List B)
      → ((x : A) (y : B) → R x y → ¬ P x)
      → Pointwise R xs ys
      → ¬ Any P xs
  Pointwise-Any [] ys f h a = a
  Pointwise-Any (x ∷ xs) [] f h a = h
  Pointwise-Any (x ∷ xs) (y ∷ ys) f h (inl p) = f x y h.0 p
  Pointwise-Any (x ∷ xs) (y ∷ ys) f h (inr a) = Pointwise-Any xs ys f h.1 a
