-- ===== src/Capsule/Readiness/Laws.antt =====
-- What the stage of a Capsule and its next actions promise.
use domain_eval_weave.Base.{
  ◌≡◌, refl, sym, ◌∙◌, ◌↔◌, String, Bool, true, false, ◌&&◌, not, Option, List, [], ◌∷◌, ◌++◌,
  All-map, All, is_empty, flat_map, is_empty-sort_by, sort, arith,
}
use domain_eval_weave.Capsule.Contracts.{LoadedCapsule, RequirementDelta, RequirementEdge}
use domain_eval_weave.Capsule.Semantics.{claim_of}
use domain_eval_weave.Evaluator.Calibration.Reports.{PersistedCalibrationReport}
use domain_eval_weave.Capsule.Readiness.{
  draft, publishable, ActionCode, ReadinessAction, when, next_actions, required_edges,
  edge_blockers, is_confirmed_claim, stage_of, runnable_now, qualified_now, publishable_now,
  required_claim_blockers,
}

is_empty-when :
    (test : Bool) (code : ActionCode) (message : String) (locator : Option String)
    (rest : List ReadinessAction)
    → is_empty (when test code message locator ++ rest) ≡ (not test && is_empty rest)
is_empty-when true code message locator rest = refl
is_empty-when false code message locator rest = refl

is_empty-when_last :
    (test : Bool) (code : ActionCode) (message : String) (locator : Option String)
    → is_empty (when test code message locator) ≡ not test
is_empty-when_last true code message locator = refl
is_empty-when_last false code message locator = refl

module _ (capsule : LoadedCapsule) (evaluator_ref : Option String)
    (persisted : List PersistedCalibrationReport) where
  -- There is no next action exactly if the Capsule is publishable and has a source, a Claim and
  -- a calibration case.
  pub next_actions-nil_iff : (is_empty (next_actions capsule evaluator_ref persisted) ≡ true) ↔ (
      (stage_of capsule evaluator_ref persisted ≡ publishable)
      × (is_empty capsule.manifest.sources ≡ false)
      × (is_empty capsule.domain.claims ≡ false)
      × (is_empty capsule.cases ≡ false))
  unfolding next_actions stage_of runnable_now qualified_now publishable_now
  next_actions-nil_iff = simp (is_empty-when, is_empty-when_last) (ground arith)

is_empty-append :
    (xs ys : List String)
    → (is_empty (xs ++ ys) ≡ true) ↔ ((is_empty xs ≡ true) × (is_empty ys ≡ true))
is_empty-append [] ys = ground arith
is_empty-append (x ∷ xs) ys = ground arith

is_empty-flat_map :
    {A : Type 0} (f : A → List String) (xs : List A)
    → (is_empty (flat_map f xs) ≡ true) ↔ All (λ x. is_empty (f x) ≡ true) xs
is_empty-flat_map f [] = ((λ h. tt), (λ h. refl))
is_empty-flat_map f (x ∷ xs) =
    ground (arith, is_empty-append (f x) (flat_map f xs), is_empty-flat_map f xs)

-- An edge whose Claim is confirmed.
abbrev pub IsConfirmedEdge : LoadedCapsule → RequirementEdge → Type 0
IsConfirmedEdge capsule edge = is_confirmed_claim (claim_of capsule edge.claim_id) ≡ true

edge_blockers-nil :
    (capsule : LoadedCapsule) (requirement : RequirementDelta) (edge : RequirementEdge)
    → is_empty (edge_blockers capsule requirement edge) ≡ true
    → IsConfirmedEdge capsule edge
unfolding edge_blockers
edge_blockers-nil capsule requirement edge h = ground arith

required_claim_blockers-nil :
    (capsule : LoadedCapsule)
    → is_empty (required_claim_blockers capsule) ≡ true
    → All (λ r. All (IsConfirmedEdge capsule) (required_edges r)) capsule.requirements
unfolding required_claim_blockers sort
required_claim_blockers-nil capsule h =
    All-map _
      (λ r hs.
        All-map _ (λ e he. edge_blockers-nil capsule r e he)
          ((is_empty-flat_map (edge_blockers capsule r) (required_edges r)).0 hs))
      ((is_empty-flat_map _ capsule.requirements).0 (sym (is_empty-sort_by _ _) ∙ h))

module _ (capsule : LoadedCapsule) (evaluator_ref : Option String)
    (persisted : List PersistedCalibrationReport) where
  -- A Capsule past the draft stage has every required edge of every Requirement on a confirmed
  -- Claim.
  pub stage_of-confirmed :
      ¬ (stage_of capsule evaluator_ref persisted ≡ draft)
      → All (λ r. All (IsConfirmedEdge capsule) (required_edges r)) capsule.requirements
  unfolding stage_of publishable_now qualified_now runnable_now
  stage_of-confirmed h = required_claim_blockers-nil capsule (ground arith)
