-- ===== src/Campaign/Laws.antt =====
-- The files that a Campaign's operations can reach.
use domain_eval_weave.Base.{
  ◌≡◌, refl, sym, ap, ◌⊎◌, inl, inr, ℤ, pos, negsuc, String, true, false, List, [], ◌∷◌, ◌∙◌, subst,
  Bool-cases,
}
use domain_eval_weave.Base.Result.{ok}
use domain_eval_weave.Campaign.{
  Phase, prepared, qualified, arm_1_running, arm_1_frozen, arm_2_running, arm_2_frozen,
  oracle_running, projected, reported, interrupted, CampaignState, StateFile, absent,
  is_safe_integer, read, written, initialize, transition, recover_after_crash, allows, moved,
  decode, phase_name, next_integer, transitions, is_settled, transition_from, recover_from,
}
use domain_eval_weave.Campaign.Phases.{
  revision_fits, phase_of_name-phase_name, revision_fits-safe, any_named, allows-fits,
}

-- One use of a `CampaignStateStore`.
pub data Command : Type 0 where
  initialize_as : String → Command
  transition_to : Phase → Command
  recover : Command

unfoldable pub after : Command → StateFile → StateFile
unfolding initialize transition recover_after_crash
after (initialize_as campaign_id) file = (initialize campaign_id file).0
after (transition_to next) file = (transition next file).0
after recover file = (recover_after_crash file).0

pub after_all : List Command → StateFile → StateFile
unfolding after
after_all [] file = file
after_all (c ∷ cs) file = after_all cs (after c file)

-- A file that is missing, or that holds a state whose revision counts its transitions.
abbrev pub IsSound : StateFile → Type 0
IsSound file =
    (file ≡ absent)
    ⊎ ((s : CampaignState) × (file ≡ written s) × (revision_fits s.phase s.revision ≡ true))

-- A state with a safe revision is read back as it was written.
pub read-written : (s : CampaignState) → is_safe_integer s.revision ≡ true → read (written s) ≡ ok s
unfolding read written decode
read-written s h = rw (phase_of_name-phase_name s.phase, h) refl

module _ (s : CampaignState) (safe : is_safe_integer s.revision ≡ true) where
  transition-written :
      (next : Phase) → transition next (written s) ≡ transition_from next (written s) (ok s)
  unfolding transition
  transition-written next = ap (transition_from next (written s)) (read-written s safe)

  recover-written : recover_after_crash (written s) ≡ recover_from (written s) (ok s)
  unfolding recover_after_crash
  recover-written = ap (recover_from (written s)) (read-written s safe)

  transition-allowed :
      (next : Phase)
      → allows s.phase next ≡ true
      → transition next (written s) ≡ (written (moved s next), ok (moved s next))
  transition-allowed next e = transition-written next ∙ rw e refl

  transition-refused :
      (next : Phase) → allows s.phase next ≡ false → (transition next (written s)).0 ≡ written s
  transition-refused next e = rw (transition-written next, e) refl

  recover-settled : is_settled s.phase ≡ true → recover_after_crash (written s) ≡ (written s, ok s)
  recover-settled e = recover-written ∙ rw e refl

  recover-unsettled :
      is_settled s.phase ≡ false
      → recover_after_crash (written s) ≡ transition interrupted (written s)
  recover-unsettled e = recover-written ∙ rw e refl

module _ (s : CampaignState) (fits : revision_fits s.phase s.revision ≡ true) where
  fitting-safe : is_safe_integer s.revision ≡ true
  fitting-safe = revision_fits-safe s.phase s.revision fits

  moved-fits :
      (next : Phase)
      → allows s.phase next ≡ true
      → revision_fits next (next_integer s.revision) ≡ true
  unfolding allows next_integer revision_fits
  moved-fits next h = fits_from s.revision fits
    where
      fits_from :
          (n : ℤ) → revision_fits s.phase n ≡ true → revision_fits next (next_integer n) ≡ true
      fits_from (pos n) f = allows-fits s.phase next n (any_named next _ h) f
      fits_from (negsuc n) f = cc

  transition-IsSound : (next : Phase) → IsSound (transition next (written s)).0
  transition-IsSound next = elim (Bool-cases (allows s.phase next)) [
    | inl e ↦
        inr (
          moved s next,
          ap (λ r. r.0) (transition-allowed s fitting-safe next e),
          moved-fits next e,
        )
    | inr e ↦ inr (s, transition-refused s fitting-safe next e, fits)
  ]

  recover-IsSound : IsSound (recover_after_crash (written s)).0
  recover-IsSound = elim (Bool-cases (is_settled s.phase)) [
    | inl e ↦ inr (s, ap (λ r. r.0) (recover-settled s fitting-safe e), fits)
    | inr e ↦
        subst (λ r. IsSound r.0) (sym (recover-unsettled s fitting-safe e))
          (transition-IsSound interrupted)
  ]

  initialize-IsSound : (campaign_id : String) → IsSound (initialize campaign_id (written s)).0
  unfolding initialize written
  initialize-IsSound campaign_id = inr (s, refl, fits)

after-IsSound : (c : Command) (file : StateFile) → IsSound file → IsSound (after c file)
unfolding after initialize transition recover_after_crash read revision_fits
after-IsSound (initialize_as campaign_id) file (inl e) =
    subst (λ f. IsSound (initialize campaign_id f).0) (sym e)
      (inr (record { campaign_id = campaign_id; phase = prepared; revision = pos 0 }, refl, refl))
after-IsSound (transition_to next) file (inl e) =
    subst (λ f. IsSound (transition next f).0) (sym e) (inl refl)
after-IsSound recover file (inl e) =
    subst (λ f. IsSound (recover_after_crash f).0) (sym e) (inl refl)
after-IsSound (initialize_as campaign_id) file (inr (s, e, fits)) =
    subst (λ f. IsSound (initialize campaign_id f).0) (sym e)
      (initialize-IsSound s fits campaign_id)
after-IsSound (transition_to next) file (inr (s, e, fits)) =
    subst (λ f. IsSound (transition next f).0) (sym e) (transition-IsSound s fits next)
after-IsSound recover file (inr (s, e, fits)) =
    subst (λ f. IsSound (recover_after_crash f).0) (sym e) (recover-IsSound s fits)

-- Whatever commands are run from a missing or sound file, in any order, the file that they leave
-- is missing or holds a state whose revision counts its transitions.
pub after_all-IsSound :
    (cs : List Command) (file : StateFile) → IsSound file → IsSound (after_all cs file)
unfolding after_all
after_all-IsSound [] file h = h
after_all-IsSound (c ∷ cs) file h = after_all-IsSound cs (after c file) (after-IsSound c file h)

-- The two phases that end a Campaign.
abbrev pub IsEnded : Phase → Type 0
IsEnded phase = (phase ≡ reported) ⊎ (phase ≡ interrupted)

ended-allows : (phase next : Phase) → IsEnded phase → allows phase next ≡ false
unfolding allows transitions
ended-allows phase next (inl e) = rw e refl
ended-allows phase next (inr e) = rw e refl

ended-settled : (phase : Phase) → IsEnded phase → is_settled phase ≡ true
ended-settled phase (inl e) = rw e refl
ended-settled phase (inr e) = rw e refl

after-ended :
    (c : Command) (s : CampaignState)
    → is_safe_integer s.revision ≡ true
    → IsEnded s.phase
    → after c (written s) ≡ written s
unfolding after initialize written
after-ended (initialize_as campaign_id) s safe ended = refl
after-ended (transition_to next) s safe ended =
    transition-refused s safe next (ended-allows s.phase next ended)
after-ended recover s safe ended =
    ap (λ r. r.0) (recover-settled s safe (ended-settled s.phase ended))

-- Of a reported or interrupted Campaign with a safe revision, no sequence of commands changes
-- the file.
pub after_all-ended :
    (cs : List Command) (s : CampaignState)
    → is_safe_integer s.revision ≡ true
    → IsEnded s.phase
    → after_all cs (written s) ≡ written s
unfolding after_all
after_all-ended [] s safe ended = refl
after_all-ended (c ∷ cs) s safe ended =
    ap (after_all cs) (after-ended c s safe ended) ∙ after_all-ended cs s safe ended

allows-interrupted : (phase : Phase) → is_settled phase ≡ false → allows phase interrupted ≡ true
unfolding allows transitions phase_name
allows-interrupted prepared h = refl
allows-interrupted qualified h = refl
allows-interrupted arm_1_running h = refl
allows-interrupted arm_1_frozen h = refl
allows-interrupted arm_2_running h = refl
allows-interrupted arm_2_frozen h = refl
allows-interrupted oracle_running h = refl
allows-interrupted projected h = cc
allows-interrupted reported h = cc
allows-interrupted interrupted h = cc

-- A sound Campaign that recovers from a crash is left reported, projected or interrupted, and to
-- recover again changes nothing and gives the same state.
pub recover_after_crash-settles :
    (s : CampaignState)
    → revision_fits s.phase s.revision ≡ true
    → (t : CampaignState) × (recover_after_crash (written s) ≡ (written t, ok t))
      × (is_settled t.phase ≡ true)
      × (recover_after_crash (written t) ≡ (written t, ok t))
recover_after_crash-settles s fits = elim (Bool-cases (is_settled s.phase)) [
  | inl e ↦ let same = recover-settled s (fitting-safe s fits) e in (s, same, e, same)
  | inr e ↦
      let allowed : allows s.phase interrupted ≡ true = allows-interrupted s.phase e in
      let t : CampaignState = moved s interrupted in
      let safe : is_safe_integer t.revision ≡ true =
        revision_fits-safe interrupted t.revision (moved-fits s fits interrupted allowed) in
      (
        t,
        recover-unsettled s (fitting-safe s fits) e
            ∙ transition-allowed s (fitting-safe s fits) interrupted allowed,
        refl,
        recover-settled t safe refl,
      )
]
