-- ===== src/Capsule/Semantics/Laws.antt =====
-- `validateSemantics` of packages/weave/src/capsule/loader.ts against what it is meant to check.
use domain_eval_weave.Base.{
  ◌≡◌, refl, ◌↔◌, String, Option, none, some, List, ◌==◌, inl, inr, eq_iff, includes-map_iff, Any,
  All, arith, true, map, Option-cases, ℕ, includes,
}
use domain_eval_weave.Base.Result.{
  ◌>>=◌, Failure, Result, ok, err, require, require_iff, >>-ok_iff, for_each-ok, for_each_from-ok,
}
use domain_eval_weave.Platform.{Platform, canonical_json_digest}
use domain_eval_weave.Capsule.Schema.Documents.{is_confirmed}
use domain_eval_weave.Capsule.Contracts.{
  CapsuleSource, CapsuleCandidate, Confirmation, ClaimStatus, confirmed, Claim, RequirementEdge,
  RequirementDelta, EvaluatorCheck, EvaluatorPackage, ExpectedClaim, CalibrationCase, LoadedCapsule,
}
use domain_eval_weave.Capsule.Semantics.{
  claim_confirmation_projection, claim_of, known, targets, check_confirmation, check_claim,
  check_requirement, check_evaluator_check, check_evaluator, check_case, validate_semantics,
}

abbrev pub KnownSource : LoadedCapsule → String → Type 0
KnownSource capsule id = Any (λ s. CapsuleSource.source_id s ≡ id) capsule.manifest.sources

abbrev pub KnownClaim : LoadedCapsule → String → Type 0
KnownClaim capsule id = Any (λ c. Claim.claim_id c ≡ id) capsule.domain.claims

abbrev pub KnownRequirement : LoadedCapsule → String → Type 0
KnownRequirement capsule id = Any (λ r. RequirementDelta.requirement_id r ≡ id) capsule.requirements

abbrev pub KnownCandidate : LoadedCapsule → String → Type 0
KnownCandidate capsule id =
    Any (λ c. CapsuleCandidate.candidate_id c ≡ id) capsule.manifest.candidates

-- The Claim that an id names is there and confirmed.
abbrev pub ConfirmedClaim : LoadedCapsule → String → Type 0
ConfirmedClaim capsule id = (c : Claim) × (claim_of capsule id ≡ some c) × (c.status ≡ confirmed)

abbrev pub Binds : Platform → Claim → Option Confirmation → Type 0
Binds p claim none = Unit
Binds p claim (some k) =
    canonical_json_digest p (claim_confirmation_projection claim) ≡ ok k.projection_sha256

abbrev pub ClaimIsClosed : Platform → LoadedCapsule → Claim → Type 0
ClaimIsClosed p capsule claim =
    All (KnownSource capsule) claim.source_ids × Binds p claim claim.confirmation

abbrev pub RequirementIsClosed : LoadedCapsule → RequirementDelta → Type 0
RequirementIsClosed capsule r =
    All (KnownSource capsule) r.source_ids
    × All (λ e. KnownClaim capsule (RequirementEdge.claim_id e)) r.edges

abbrev pub EvaluatorIsClosed : LoadedCapsule → EvaluatorPackage → Type 0
EvaluatorIsClosed capsule e =
    KnownRequirement capsule e.requirement_id
    × All (λ k. ConfirmedClaim capsule (EvaluatorCheck.claim_id k)) e.checks

abbrev pub CaseIsClosed : LoadedCapsule → CalibrationCase → Type 0
CaseIsClosed capsule c =
    KnownCandidate capsule c.candidate_id
    × All (λ e. KnownClaim capsule (ExpectedClaim.claim_id e)) c.expected_claims
    × All (KnownClaim capsule) (targets c.target_claim_ids)

-- Every id that one document of a Capsule takes from another is declared there, every check is
-- about a confirmed Claim, and every confirmation binds its Claim as it stands.
pub record IsClosed (p : Platform) (capsule : LoadedCapsule) : Type 0 where
  pub claims : All (ClaimIsClosed p capsule) capsule.domain.claims
  pub requirements : All (RequirementIsClosed capsule) capsule.requirements
  pub evaluators : All (EvaluatorIsClosed capsule) capsule.evaluators
  pub cases : All (CaseIsClosed capsule) capsule.cases

pub is_confirmed_iff : (s : ClaimStatus) → (is_confirmed s ≡ true) ↔ (s ≡ confirmed)
unfolding is_confirmed
is_confirmed_iff s = ground arith

abbrev both : {A B C D : Type 0} → A ↔ C → B ↔ D → (A × B) ↔ (C × D)
both f g = ((λ h. (f.0 h.0, g.0 h.1)), (λ h. (f.1 h.0, g.1 h.1)))

abbrev trans_iff : {A B C : Type 0} → A ↔ B → B ↔ C → A ↔ C
trans_iff f g = ((λ h. g.0 (f.0 h)), (λ h. f.1 (g.1 h)))

module _ {A : Type 0} (key : A → String) (xs : List A) where
  known-ok :
      (id code : String) (message : List String) (locator : Option String)
      → (known (map key xs) id code message locator ≡ ok tt) ↔ Any (λ x. key x ≡ id) xs
  unfolding known
  known-ok id code message locator =
      trans_iff (require_iff (includes id (map key xs)) _) (includes-map_iff key id xs)

module _ (p : Platform) (capsule : LoadedCapsule) where
  check_confirmation-ok :
      (claim : Claim) (k : Option Confirmation)
      → (check_confirmation p capsule claim k ≡ ok tt) ↔ Binds p claim k
  unfolding check_confirmation
  check_confirmation-ok claim none = ((λ h. tt), (λ h. refl))
  check_confirmation-ok claim (some k) =
      digest_binds (canonical_json_digest p (claim_confirmation_projection claim))
        k.projection_sha256 _
    where
      digest_binds :
          (r : Result String) (s : String) (e : Failure)
          → (◌>>=◌ r (λ digest. require (s == digest) e) ≡ ok tt) ↔ (r ≡ ok s)
      digest_binds (ok digest) s e = ground (arith, eq_iff s digest)
      digest_binds (err f) s e = ((λ h. cc), (λ h. cc))

  check_claim-ok : (c : Claim) → (check_claim p capsule c ≡ ok tt) ↔ ClaimIsClosed p capsule c
  unfolding check_claim
  check_claim-ok c = trans_iff (>>-ok_iff _ _) (
      both
        (for_each-ok _ _ c.source_ids
          λ id. known-ok (λ s. s.source_id) capsule.manifest.sources id _ _ _)
        (check_confirmation-ok c c.confirmation))

  check_requirement-ok :
      (i : ℕ) (r : RequirementDelta)
      → (check_requirement p capsule i r ≡ ok tt) ↔ RequirementIsClosed capsule r
  unfolding check_requirement
  check_requirement-ok i r = trans_iff (>>-ok_iff _ _) (
      both
        (for_each-ok _ _ r.source_ids
          λ id. known-ok (λ s. s.source_id) capsule.manifest.sources id _ _ _)
        (for_each-ok _ _ r.edges
          λ e. known-ok (λ c. c.claim_id) capsule.domain.claims e.claim_id _ _ _))

  check_evaluator_check-ok :
      (path : Option String) (k : EvaluatorCheck)
      → (check_evaluator_check p capsule path k ≡ ok tt) ↔ ConfirmedClaim capsule k.claim_id
  unfolding check_evaluator_check
  check_evaluator_check-ok path k = elim (Option-cases (claim_of capsule k.claim_id)) [
    | inl e ↦ rw e ((λ h. cc), (λ (c, f, _). cc))
    | inr (c, e) ↦ rw e (
      (λ h. (c, refl, (is_confirmed_iff c.status).0 ((require_iff _ _).0 h))),
      (λ (d, f, g). (require_iff _ _).1 ((is_confirmed_iff c.status).1 (cc))),
    )
  ]

  check_evaluator-ok :
      (i : ℕ) (e : EvaluatorPackage)
      → (check_evaluator p capsule i e ≡ ok tt) ↔ EvaluatorIsClosed capsule e
  unfolding check_evaluator
  check_evaluator-ok i e = trans_iff (>>-ok_iff _ _) (
      both (known-ok (λ r. r.requirement_id) capsule.requirements e.requirement_id _ _ _)
        (for_each-ok _ _ e.checks λ k. check_evaluator_check-ok _ k))

  check_case-ok :
      (i : ℕ) (c : CalibrationCase) → (check_case p capsule i c ≡ ok tt) ↔ CaseIsClosed capsule c
  unfolding check_case
  check_case-ok i c =
      let parts = >>-ok_iff _ _ in
      let first = >>-ok_iff _ _ in
      let candidate =
        known-ok (λ k. CapsuleCandidate.candidate_id k) capsule.manifest.candidates c.candidate_id _
          _ _ in
      let expected =
        for_each-ok _ (λ e. KnownClaim capsule (ExpectedClaim.claim_id e)) c.expected_claims
          λ e. known-ok (λ k. Claim.claim_id k) capsule.domain.claims e.claim_id _ _ _ in
      let mutants =
        for_each-ok _ (KnownClaim capsule) (targets c.target_claim_ids)
          λ t. known-ok (λ k. Claim.claim_id k) capsule.domain.claims t _ _ _ in
      (
        (λ h.
            let (rest, last) = parts.0 h in
            let (a, b) = first.0 rest in (candidate.0 a, expected.0 b, mutants.0 last)),
        (λ (a, b, d). parts.1 (first.1 (candidate.1 a, expected.1 b), mutants.1 d)),
      )

  -- `validateSemantics` returns exactly for the Capsules whose references are closed: every source,
  -- Claim, Requirement and Candidate id is declared, every check is about a confirmed Claim, and
  -- every confirmation carries the digest of its Claim's projection.
  pub validate_semantics-ok_iff : (validate_semantics p capsule ≡ ok tt) ↔ IsClosed p capsule
  unfolding validate_semantics
  validate_semantics-ok_iff =
      let last = >>-ok_iff _ _ in
      let middle = >>-ok_iff _ _ in
      let first = >>-ok_iff _ _ in
      let claims = for_each-ok _ (ClaimIsClosed p capsule) capsule.domain.claims check_claim-ok in
      let requirements =
        for_each_from-ok _ (RequirementIsClosed capsule) 0 capsule.requirements
          check_requirement-ok in
      let evaluators =
        for_each_from-ok _ (EvaluatorIsClosed capsule) 0 capsule.evaluators check_evaluator-ok in
      let cases = for_each_from-ok _ (CaseIsClosed capsule) 0 capsule.cases check_case-ok in
      (
        (λ h.
            let (h₁, d) = last.0 h in
            let (h₂, c) = middle.0 h₁ in
            let (a, b) = first.0 h₂ in
            record {
              claims = claims.0 a;
              requirements = requirements.0 b;
              evaluators = evaluators.0 c;
              cases = cases.0 d;
            }),
        (λ k. last.1 (
          middle.1 (
            first.1 (claims.1 k.claims, requirements.1 k.requirements),
            evaluators.1 k.evaluators,
          ),
          cases.1 k.cases,
        )),
      )
