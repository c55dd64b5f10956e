-- ===== src/Campaign/Phases.antt =====
-- The phases of a Campaign in order, and the revision that each has (src/campaign/state.ts).
use domain_eval_weave.Base.{
  ◌≡◌, refl, sym, ap, inl, inr, ℕ, ◌+◌, ℤ, pos, negsuc, Bool, true, false, ◌&&◌, List, [], ◌∷◌,
  some, arith, some-inj, ◌∙◌, any, Any, ◌==◌, eq_iff, subst, leb, eqb, Bool-cases,
}
use domain_eval_weave.Campaign.{
  Phase, prepared, qualified, arm_1_running, arm_1_frozen, arm_2_running, arm_2_frozen,
  oracle_running, projected, reported, interrupted, is_safe_integer, phase_of_name, phase_name,
  transitions,
}

-- The place of a phase on the way from prepared to reported.
abbrev place : Phase → ℕ
place prepared = 0
place qualified = 1
place arm_1_running = 2
place arm_1_frozen = 3
place arm_2_running = 4
place arm_2_frozen = 5
place oracle_running = 6
place projected = 7
place reported = 8
place interrupted = 9

-- The revision counts the transitions: it is the place of the phase, or 1 to 8 once interrupted.
unfoldable pub revision_fits : Phase → ℤ → Bool
revision_fits interrupted (pos n) = leb 1 n && leb n 8
revision_fits phase (pos n) = eqb n (place phase)
revision_fits phase (negsuc n) = false

pub phase_of_name-phase_name : (phase : Phase) → phase_of_name (phase_name phase) ≡ some phase
unfolding phase_of_name phase_name
phase_of_name-phase_name prepared = refl
phase_of_name-phase_name qualified = refl
phase_of_name-phase_name arm_1_running = refl
phase_of_name-phase_name arm_1_frozen = refl
phase_of_name-phase_name arm_2_running = refl
phase_of_name-phase_name arm_2_frozen = refl
phase_of_name-phase_name oracle_running = refl
phase_of_name-phase_name projected = refl
phase_of_name-phase_name reported = refl
phase_of_name-phase_name interrupted = refl

pub revision_fits-safe :
    (phase : Phase) (n : ℤ) → revision_fits phase n ≡ true → is_safe_integer n ≡ true
unfolding revision_fits is_safe_integer
revision_fits-safe phase (negsuc n) h = cc
revision_fits-safe prepared (pos n) h = ground arith
revision_fits-safe qualified (pos n) h = ground arith
revision_fits-safe arm_1_running (pos n) h = ground arith
revision_fits-safe arm_1_frozen (pos n) h = ground arith
revision_fits-safe arm_2_running (pos n) h = ground arith
revision_fits-safe arm_2_frozen (pos n) h = ground arith
revision_fits-safe oracle_running (pos n) h = ground arith
revision_fits-safe projected (pos n) h = ground arith
revision_fits-safe reported (pos n) h = ground arith
revision_fits-safe interrupted (pos n) h = ground arith

phase_name-inj : (p q : Phase) → phase_name p ≡ phase_name q → p ≡ q
phase_name-inj p q e =
    some-inj p q
      (sym (phase_of_name-phase_name p) ∙ ap phase_of_name e ∙ phase_of_name-phase_name q)

pub any_named :
    (next : Phase) (ps : List Phase)
    → any (λ q. phase_name q == phase_name next) ps ≡ true
    → Any (λ q. q ≡ next) ps
any_named next [] h = cc
any_named next (q ∷ ps) h = elim (Bool-cases (phase_name q == phase_name next)) [
  | inl e ↦ inl (phase_name-inj q next ((eq_iff _ _).0 e))
  | inr e ↦ inr (any_named next ps (ground arith))
]

-- A transition that is allowed leads one place on, or to the interruption.
pub allows-fits :
    (phase next : Phase) (n : ℕ)
    → Any (λ q. q ≡ next) (transitions phase)
    → revision_fits phase (pos n) ≡ true
    → revision_fits next (pos (n + 1)) ≡ true
unfolding transitions revision_fits
allows-fits prepared next n (inl e) h =
    subst (λ q. revision_fits q (pos (n + 1)) ≡ true) e (ground arith)
allows-fits prepared next n (inr (inl e)) h =
    subst (λ q. revision_fits q (pos (n + 1)) ≡ true) e (ground arith)
allows-fits prepared next n (inr (inr e)) h = absurd e
allows-fits qualified next n (inl e) h =
    subst (λ q. revision_fits q (pos (n + 1)) ≡ true) e (ground arith)
allows-fits qualified next n (inr (inl e)) h =
    subst (λ q. revision_fits q (pos (n + 1)) ≡ true) e (ground arith)
allows-fits qualified next n (inr (inr e)) h = absurd e
allows-fits arm_1_running next n (inl e) h =
    subst (λ q. revision_fits q (pos (n + 1)) ≡ true) e (ground arith)
allows-fits arm_1_running next n (inr (inl e)) h =
    subst (λ q. revision_fits q (pos (n + 1)) ≡ true) e (ground arith)
allows-fits arm_1_running next n (inr (inr e)) h = absurd e
allows-fits arm_1_frozen next n (inl e) h =
    subst (λ q. revision_fits q (pos (n + 1)) ≡ true) e (ground arith)
allows-fits arm_1_frozen next n (inr (inl e)) h =
    subst (λ q. revision_fits q (pos (n + 1)) ≡ true) e (ground arith)
allows-fits arm_1_frozen next n (inr (inr e)) h = absurd e
allows-fits arm_2_running next n (inl e) h =
    subst (λ q. revision_fits q (pos (n + 1)) ≡ true) e (ground arith)
allows-fits arm_2_running next n (inr (inl e)) h =
    subst (λ q. revision_fits q (pos (n + 1)) ≡ true) e (ground arith)
allows-fits arm_2_running next n (inr (inr e)) h = absurd e
allows-fits arm_2_frozen next n (inl e) h =
    subst (λ q. revision_fits q (pos (n + 1)) ≡ true) e (ground arith)
allows-fits arm_2_frozen next n (inr (inl e)) h =
    subst (λ q. revision_fits q (pos (n + 1)) ≡ true) e (ground arith)
allows-fits arm_2_frozen next n (inr (inr e)) h = absurd e
allows-fits oracle_running next n (inl e) h =
    subst (λ q. revision_fits q (pos (n + 1)) ≡ true) e (ground arith)
allows-fits oracle_running next n (inr (inl e)) h =
    subst (λ q. revision_fits q (pos (n + 1)) ≡ true) e (ground arith)
allows-fits oracle_running next n (inr (inr e)) h = absurd e
allows-fits projected next n (inl e) h =
    subst (λ q. revision_fits q (pos (n + 1)) ≡ true) e (ground arith)
allows-fits projected next n (inr (inl e)) h =
    subst (λ q. revision_fits q (pos (n + 1)) ≡ true) e (ground arith)
allows-fits projected next n (inr (inr e)) h = absurd e
allows-fits reported next n e h = absurd e
allows-fits interrupted next n e h = absurd e
