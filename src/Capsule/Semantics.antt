-- ===== src/Capsule/Semantics.antt =====
-- `validateSemantics` of packages/weave/src/capsule/loader.ts, and the projection that a
-- confirmation binds (`claimConfirmationProjection` of contracts.ts).
pub mod Laws
use domain_eval_weave.Base.{
  ℕ, String, Bool, true, false, Option, none, some, List, [], ◌∷◌, map, ◌==◌, includes, is_some,
  map_get, get_elem?, template,
}
use domain_eval_weave.Base.Result.{
  Failure, capsule_error, Result, ok, err, require, or_throw, for_each, for_each_from, ◌>>=◌, ◌>>◌,
}
use domain_eval_weave.Json.{JsonValue, str}
use domain_eval_weave.Json.Build.{object, texts}
use domain_eval_weave.Platform.{Platform, canonical_json_digest}
use domain_eval_weave.Capsule.Schema.Documents.{is_confirmed}
use domain_eval_weave.Capsule.Contracts.{
  CapsuleSource, CapsuleCandidate, Confirmation, ClaimStatus, confirmed, proposed, unresolved,
  conflicted, observability_gap, Risk, low, medium, high, critical, Claim, RequirementEdge,
  RequirementDelta, EvaluatorCheck, EvaluatorPackage, ExpectedClaim, CalibrationCase, LoadedCapsule,
}

abbrev risk_name : Risk → String
risk_name low = "low"
risk_name medium = "medium"
risk_name high = "high"
risk_name critical = "critical"

unfoldable pub status_name : ClaimStatus → String
status_name confirmed = "confirmed"
status_name proposed = "proposed"
status_name unresolved = "unresolved"
status_name conflicted = "conflicted"
status_name observability_gap = "observability_gap"

unfoldable pub claim_confirmation_projection : Claim → JsonValue
claim_confirmation_projection claim = object (
    ("claim_id", str claim.claim_id)
    ∷ ("statement", str claim.statement)
    ∷ ("applicability", str claim.applicability)
    ∷ ("source_ids", texts claim.source_ids)
    ∷ ("false_accept_risk", str (risk_name claim.false_accept_risk))
    ∷ ("false_reject_risk", str (risk_name claim.false_reject_risk))
    ∷ [])

abbrev pub source_ids_of : LoadedCapsule → List String
source_ids_of capsule = map (λ s. CapsuleSource.source_id s) capsule.manifest.sources

abbrev pub claim_ids_of : LoadedCapsule → List String
claim_ids_of capsule = map (λ c. Claim.claim_id c) capsule.domain.claims

-- `claims.get(id)`
abbrev pub claim_of : LoadedCapsule → String → Option Claim
claim_of capsule id = map_get (λ c. Claim.claim_id c) id capsule.domain.claims

-- An id that must be in a set, or the error that names it.
known : List String → String → String → List String → Option String → Result (Unit {0})
known ids id code message locator =
    require (includes id ids) (capsule_error code (template message) locator)

-- `calibrationCase.target_claim_ids ?? []`
abbrev pub targets : Option (List String) → List String
targets none = []
targets (some ids) = ids

module _ (p : Platform) (capsule : LoadedCapsule) where
  check_confirmation : Claim → Option Confirmation → Result (Unit {0})
  check_confirmation claim none = ok tt
  check_confirmation claim (some confirmation) = do
    digest ← canonical_json_digest p (claim_confirmation_projection claim)
    require (confirmation.projection_sha256 == digest) (
        capsule_error "CAPSULE_CONFIRMATION_DRIFT"
          (template
            ("Claim " ∷ claim.claim_id ∷ " confirmation does not bind its current projection" ∷ []))
          (some capsule.manifest.domain))

  check_claim : Claim → Result (Unit {0})
  unfolding known check_confirmation
  check_claim claim =
      for_each
        (λ id.
          known (source_ids_of capsule) id "CAPSULE_SOURCE_UNKNOWN"
            ("Claim " ∷ claim.claim_id ∷ " references unknown source " ∷ id ∷ [])
            (some capsule.manifest.domain))
        claim.source_ids
      >> check_confirmation claim claim.confirmation

  check_requirement : ℕ → RequirementDelta → Result (Unit {0})
  unfolding known
  check_requirement i requirement =
      let path = get_elem? capsule.manifest.requirements i in
      for_each
        (λ id.
          known (source_ids_of capsule) id "CAPSULE_SOURCE_UNKNOWN"
            ("Requirement " ∷ requirement.requirement_id ∷ " references unknown source " ∷ id ∷ [])
            path)
        requirement.source_ids
      >> for_each
          (λ edge.
            known (claim_ids_of capsule) (RequirementEdge.claim_id edge) "CAPSULE_CLAIM_UNKNOWN"
              ("Requirement " ∷ requirement.requirement_id ∷ " references unknown Claim "
                ∷ edge.claim_id ∷ [])
              path)
          requirement.edges

  check_evaluator_check : Option String → EvaluatorCheck → Result (Unit {0})
  check_evaluator_check path check = do
    claim ← or_throw (claim_of capsule check.claim_id) (
        capsule_error "CAPSULE_CLAIM_UNKNOWN"
          (template (
            "Evaluator check " ∷ check.check_id ∷ " references unknown Claim " ∷ check.claim_id
            ∷ []))
          path)
    require (is_confirmed (Claim.status claim)) (
        capsule_error "CAPSULE_CLAIM_NOT_CONFIRMED"
          (template (
            "Evaluator check "
            ∷ check.check_id
            ∷ " cannot hard-judge "
            ∷ status_name claim.status
            ∷ " Claim "
            ∷ claim.claim_id
            ∷ []))
          path)

  check_evaluator : ℕ → EvaluatorPackage → Result (Unit {0})
  unfolding known check_evaluator_check
  check_evaluator i evaluator =
      let path = get_elem? capsule.manifest.evaluators i in
      known (map (λ r. RequirementDelta.requirement_id r) capsule.requirements)
        evaluator.requirement_id "CAPSULE_REQUIREMENT_UNKNOWN"
        ("Evaluator " ∷ evaluator.evaluator_id ∷ "@" ∷ evaluator.version
          ∷ " references unknown Requirement" ∷ [])
        path
      >> for_each (check_evaluator_check path) evaluator.checks

  check_case : ℕ → CalibrationCase → Result (Unit {0})
  unfolding known
  check_case i c =
      let path = get_elem? capsule.manifest.cases i in
      known (map (λ k. CapsuleCandidate.candidate_id k) capsule.manifest.candidates) c.candidate_id
        "CAPSULE_CANDIDATE_UNKNOWN"
        ("Calibration case " ∷ c.case_id ∷ " references unknown Candidate" ∷ []) path
      >> for_each
          (λ expectation.
            known (claim_ids_of capsule) (ExpectedClaim.claim_id expectation)
              "CAPSULE_CLAIM_UNKNOWN"
              ("Calibration case " ∷ c.case_id ∷ " references unknown Claim " ∷ expectation.claim_id
                ∷ [])
              path)
          c.expected_claims
      >> for_each
          (λ target.
            known (claim_ids_of capsule) target "CAPSULE_CLAIM_UNKNOWN"
              ("Mutant " ∷ c.case_id ∷ " targets unknown Claim " ∷ target ∷ []) path)
          (targets c.target_claim_ids)

  unfoldable pub validate_semantics : Result (Unit {0})
  unfolding check_claim check_requirement check_evaluator check_case
  validate_semantics =
      for_each check_claim capsule.domain.claims
      >> for_each_from check_requirement 0 capsule.requirements
      >> for_each_from check_evaluator 0 capsule.evaluators
      >> for_each_from check_case 0 capsule.cases
