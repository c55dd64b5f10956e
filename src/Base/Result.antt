-- ===== src/Base/Result.antt =====
-- What a function of the program throws, and results that carry it.
use mathlib.Core.Path.{◌≡◌, refl, subst}
use mathlib.Core.Logic.{◌↔◌}
use mathlib.Core.Bool.{Bool, true, false}
use mathlib.Core.Option.{Option, none, some}
use mathlib.Core.List.{List, [], ◌∷◌}
use Prim.Native.Nat.{ℕ, ◌+◌}
use Prim.Native.String.{String}
use domain_eval_weave.Base.Lists.{All, Pointwise}

-- `CapsuleError` with its code, message and locator, and the errors of the other modules.
pub data Failure : Type 0 where
  capsule_error : String → String → Option String → Failure
  canonical_json_error : String → Failure
  campaign_state_error : String → String → Failure
  schema_error : String → Failure
  plain_error : String → Failure

pub data Result {ℓ} (A : Type ℓ) : Type ℓ where
  err : Failure → Result A
  ok : A → Result A

-- `if (!test) throw failure`
abbrev pub require : Bool → Failure → Result (Unit {0})
require false failure = err failure
require true failure = ok tt

module _ {ℓ κ} {A : Type ℓ} {B : Type κ} where
  -- What follows a throw is not run.
  infixl 5 ◌>>=◌
  abbrev pub ◌>>=◌ : Result A → (A → Result B) → Result B
  err failure >>= next = err failure
  ok a >>= next = next a

  -- A chain that returns has run its first part and what follows it.
  pub >>=-eq-ok :
      (first : Result A) (next : A → Result B) {b : B}
      → (first >>= next) ≡ ok b
      → (a : A) × (first ≡ ok a) × (next a ≡ ok b)
  >>=-eq-ok (err failure) next h = cc
  >>=-eq-ok (ok a) next h = (a, refl, h)

infixl 5 ◌>>◌
abbrev pub ◌>>◌ {κ} : {B : Type κ} → Result (Unit {0}) → Result B → Result B
done >> rest = done >>= λ _. rest

-- `if (x === undefined) throw e`
abbrev pub or_throw {ℓ} : {A : Type ℓ} → Option A → Failure → Result A
or_throw none e = err e
or_throw (some a) e = ok a

-- A loop whose rounds may throw, with and without results.
abbrev pub for_each {ℓ} : {A : Type ℓ} → (A → Result (Unit {0})) → List A → Result (Unit {0})
for_each f [] = ok tt
for_each f (x ∷ xs) = f x >> for_each f xs

abbrev pub for_each_from {ℓ} :
    {A : Type ℓ} → (ℕ → A → Result (Unit {0})) → ℕ → List A → Result (Unit {0})
for_each_from f i [] = ok tt
for_each_from f i (x ∷ xs) = f i x >> for_each_from f (i + 1) xs

abbrev pub map_results {ℓ κ} : {A : Type ℓ} {B : Type κ} → (A → Result B) → List A → Result (List B)
map_results f [] = ok []
map_results f (x ∷ xs) = f x >>= λ y. map_results f xs >>= λ ys. ok (y ∷ ys)

pub require_iff : (b : Bool) (e : Failure) → (require b e ≡ ok tt) ↔ (b ≡ true)
require_iff true e = ((λ h. refl), (λ h. refl))
require_iff false e = ((λ h. cc), (λ h. cc))

-- A sequence returns exactly when each part does.
pub >>-ok_iff : (m k : Result (Unit {0})) → ((m >> k) ≡ ok tt) ↔ ((m ≡ ok tt) × (k ≡ ok tt))
>>-ok_iff (ok tt) k = ((λ h. (refl, h)), (λ h. h.1))
>>-ok_iff (err e) k = ((λ h. cc), (λ h. cc))

-- A loop that may throw returns exactly when every round does.
module _ {ℓ} {A : Type ℓ} where
  pub for_each-ok :
      (f : A → Result (Unit {0})) (P : A → Type 0) (xs : List A)
      → ((x : A) → (f x ≡ ok tt) ↔ P x)
      → (for_each f xs ≡ ok tt) ↔ All P xs
  for_each-ok f P [] h = ((λ e. tt), (λ a. refl))
  for_each-ok f P (x ∷ xs) h =
      let both = >>-ok_iff (f x) (for_each f xs) in
      let ih = for_each-ok f P xs h in
      (
        (λ e. let (here, later) = both.0 e in ((h x).0 here, ih.0 later)),
        (λ a. both.1 ((h x).1 a.0, ih.1 a.1)),
      )

  pub for_each_from-ok :
      (f : ℕ → A → Result (Unit {0})) (P : A → Type 0) (i : ℕ) (xs : List A)
      → ((j : ℕ) (x : A) → (f j x ≡ ok tt) ↔ P x)
      → (for_each_from f i xs ≡ ok tt) ↔ All P xs
  for_each_from-ok f P i [] h = ((λ e. tt), (λ a. refl))
  for_each_from-ok f P i (x ∷ xs) h =
      let both = >>-ok_iff (f i x) (for_each_from f (i + 1) xs) in
      let ih = for_each_from-ok f P (i + 1) xs h in
      (
        (λ e. let (here, later) = both.0 e in ((h i x).0 here, ih.0 later)),
        (λ a. both.1 ((h i x).1 a.0, ih.1 a.1)),
      )

pub or_throw-ok {ℓ} :
    {A : Type ℓ} (o : Option A) (e : Failure) {a : A} → or_throw o e ≡ ok a → o ≡ some a
or_throw-ok none e h = cc
or_throw-ok (some b) e h = cc

pub ok-inj {ℓ} : {A : Type ℓ} (a b : A) → ok a ≡ ok b → a ≡ b
ok-inj a b h = cc

-- A loop that collects results has run its body at every entry.
pub map_results-Pointwise :
    {A B : Type 0} (f : A → Result B) (xs : List A) (ys : List B)
    → map_results f xs ≡ ok ys
    → Pointwise (λ x y. f x ≡ ok y) xs ys
map_results-Pointwise f [] [] h = tt
map_results-Pointwise f [] (y ∷ ys) h = cc
map_results-Pointwise {B = B} f (x ∷ xs) ys h =
    let (z, here, h₁) = >>=-eq-ok (f x) _ h in
    let (zs, later, h₂) = >>=-eq-ok (map_results f xs) _ h₁ in
    subst (Pointwise (λ x y. f x ≡ ok y) (x ∷ xs)) (ok-inj _ _ h₂)
      (here, map_results-Pointwise f xs zs later)
