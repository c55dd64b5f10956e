-- ===== src/Base/Text/Laws.antt =====
-- Laws of prefixes and slices of a text.
use Prim.Native.Nat.{ℕ, zero, suc, ◌+◌}
use Prim.Native.Nat.add
use Prim.Native.String.{String, [], ◌∷◌, ◌++◌}
use mathlib.Core.Path.{◌≡◌, refl, sym, ap}
use mathlib.Core.Bool.{true}
use native.Mathlib.Omega.{arith}
use text.Mathlib.TextLemmas.{nil-append, cons-append}
use domain_eval_weave.Base.Text.{starts_with, take, drop, codes_count}

pub starts_with-append : (s t : String) → starts_with (s ++ t) s ≡ true
unfolding starts_with
starts_with-append [] [] = refl
starts_with-append [] (c ∷ t) = refl
starts_with-append (c ∷ s) t = rw cons-append (ground (arith, starts_with-append s t))

pub take-append : (s t : String) → take (codes_count s) (s ++ t) ≡ s
unfolding take codes_count
take-append [] t = refl
take-append (c ∷ s) t = rw cons-append (ap (λ r. c ∷ r) (take-append s t))

pub drop-append : (s t : String) → drop (codes_count s) (s ++ t) ≡ t
unfolding drop codes_count
drop-append [] t = nil-append t
drop-append (c ∷ s) t = rw cons-append (drop-append s t)

drop-nil : (m : ℕ) → drop m [] ≡ []
unfolding drop
drop-nil zero = refl
drop-nil (suc m) = refl

pub drop-add : (n m : ℕ) (s : String) → drop (n + m) s ≡ drop m (drop n s)
unfolding drop
drop-add zero m s = rw add.zero refl
drop-add (suc n) m [] = rw add.suc (sym (drop-nil m))
drop-add (suc n) m (c ∷ s) = rw add.suc (drop-add n m s)
