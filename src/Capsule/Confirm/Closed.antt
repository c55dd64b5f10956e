-- ===== src/Capsule/Confirm/Closed.antt =====
-- A Capsule whose references are closed stays so when a Claim is confirmed
-- (packages/weave/src/capsule/loader.ts).
use domain_eval_weave.Base.{
  ◌≡◌, ◌∙◌, subst, sym, String, Bool, some, none, List, [], ◌∷◌, Any, All, All-map, Pointwise,
  map_get, last_or, if◌then◌else◌, inl, inr, Option, ◌==◌, refl, true, false,
}
use domain_eval_weave.Base.Result.{ok}
use domain_eval_weave.Platform.{Platform}
use domain_eval_weave.Capsule.Contracts.{
  confirmed, Claim, RequirementEdge, EvaluatorCheck, ExpectedClaim, CapsuleDomain, LoadedCapsule,
}
use domain_eval_weave.Capsule.Semantics.{targets}
use domain_eval_weave.Capsule.Semantics.Laws.{KnownSource, ClaimIsClosed, IsClosed}
use domain_eval_weave.Capsule.Confirm.{confirm_capsule_claim}
use domain_eval_weave.Capsule.Confirm.Laws.{Kept, confirm_capsule_claim-Kept}

module _ (p : Platform) where
  Any-Kept :
      (id : String) (xs ys : List Claim)
      → Pointwise (Kept p) xs ys
      → Any (λ c. Claim.claim_id c ≡ id) xs
      → Any (λ c. Claim.claim_id c ≡ id) ys
  Any-Kept id [] [] h a = a
  Any-Kept id [] (y ∷ ys) h a = absurd h
  Any-Kept id (x ∷ xs) [] h a = absurd h
  Any-Kept id (x ∷ xs) (y ∷ ys) h (inl e) = inl (sym h.0.0 ∙ e)
  Any-Kept id (x ∷ xs) (y ∷ ys) h (inr a) = inr (Any-Kept id xs ys h.1 a)

  -- The Claims found under one id are related, or both are missing.
  abbrev Both : Option Claim → Option Claim → Type 0
  Both none none = Unit
  Both none (some y) = ⊥
  Both (some x) none = ⊥
  Both (some x) (some y) = Kept p x y

  map_get-Kept :
      (id : String) (xs ys : List Claim)
      → Pointwise (Kept p) xs ys
      → Both (map_get (λ c. Claim.claim_id c) id xs) (map_get (λ c. Claim.claim_id c) id ys)
  map_get-Kept id [] [] h = tt
  map_get-Kept id [] (y ∷ ys) h = absurd h
  map_get-Kept id (x ∷ xs) [] h = absurd h
  map_get-Kept id (x ∷ xs) (y ∷ ys) h =
      step (map_get (λ c. Claim.claim_id c) id xs) (map_get (λ c. Claim.claim_id c) id ys)
        (x.claim_id == id) (y.claim_id == id) (map_get-Kept id xs ys h.1) h.0 (rw h.0.0)
    where
      step :
          (o q : Option Claim) (a b : Bool)
          → Both o q
          → Kept p x y
          → a ≡ b
          → Both (last_or o (if a then some x else none)) (last_or q (if b then some y else none))
      step (some c) (some d) a b k r e = k
      step (some c) none a b k r e = absurd k
      step none (some d) a b k r e = absurd k
      step none none true true k r e = r
      step none none true false k r e = cc
      step none none false true k r e = cc
      step none none false false k r e = tt

  ConfirmedClaim-Kept :
      (id : String) (xs ys : List Claim)
      → Pointwise (Kept p) xs ys
      → ((c : Claim) × (map_get (λ c. Claim.claim_id c) id xs ≡ some c) × (c.status ≡ confirmed))
      → ((c : Claim) × (map_get (λ c. Claim.claim_id c) id ys ≡ some c) × (c.status ≡ confirmed))
  ConfirmedClaim-Kept id xs ys h (c, found, is) =
      let r =
        subst (λ o. Both o (map_get (λ c. Claim.claim_id c) id ys)) found
          (map_get-Kept id xs ys h) in
      there (map_get (λ c. Claim.claim_id c) id ys) r
    where
      there :
          (o : Option Claim) → Both (some c) o → (d : Claim) × (o ≡ some d) × (d.status ≡ confirmed)
      there none r = absurd r
      there (some d) r = (d, refl, r.2 is)

  ClaimIsClosed-Kept :
      (capsule : LoadedCapsule) (after : CapsuleDomain) (xs ys : List Claim)
      → Pointwise (Kept p) xs ys
      → All (ClaimIsClosed p capsule) xs
      → All (ClaimIsClosed p (record capsule { domain = after })) ys
  ClaimIsClosed-Kept capsule after [] [] h a = tt
  ClaimIsClosed-Kept capsule after [] (y ∷ ys) h a = absurd h
  ClaimIsClosed-Kept capsule after (x ∷ xs) [] h a = absurd h
  ClaimIsClosed-Kept capsule after (x ∷ xs) (y ∷ ys) (k, h) ((sources, binds), a) = (
    (subst (All (KnownSource capsule)) k.1 sources, k.3 binds),
    ClaimIsClosed-Kept capsule after xs ys h a,
  )

  -- Confirming a Claim of a Capsule whose references are closed leaves a Capsule whose references
  -- are closed, with the domain document that is written in place of the old one.
  pub confirm_capsule_claim-IsClosed :
      (capsule : LoadedCapsule) (claim_id owner_id : String) (after : CapsuleDomain)
      (result : Claim)
      → IsClosed p capsule
      → confirm_capsule_claim p capsule claim_id owner_id ≡ ok (after, result)
      → IsClosed p (record capsule { domain = after })
  confirm_capsule_claim-IsClosed capsule claim_id owner_id after result closed returned =
      let kept = confirm_capsule_claim-Kept p capsule claim_id owner_id after result returned in
      let claims = capsule.domain.claims in
      let known = λ (id : String). Any-Kept id claims after.claims kept in
      record {
        claims = ClaimIsClosed-Kept capsule after claims after.claims kept closed.claims;
        requirements =
            All-map capsule.requirements
              (λ r h. (h.0, All-map r.edges (λ e. known (RequirementEdge.claim_id e)) h.1))
              closed.requirements;
        evaluators =
            All-map capsule.evaluators
              (λ e h. (
                h.0,
                All-map e.checks
                    (λ k. ConfirmedClaim-Kept (EvaluatorCheck.claim_id k) claims after.claims kept)
                    h.1,
              ))
              closed.evaluators;
        cases =
            All-map capsule.cases
              (λ c h. (
                h.0,
                All-map c.expected_claims (λ e. known (ExpectedClaim.claim_id e)) h.1,
                All-map (targets c.target_claim_ids) known h.2,
              ))
              closed.cases;
      }
