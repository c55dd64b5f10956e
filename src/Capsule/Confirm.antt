-- ===== src/Capsule/Confirm.antt =====
-- `confirmCapsuleClaim` of packages/weave/src/capsule/loader.ts, after `loadCapsule` has returned:
-- the result is the domain document that is written and the Claim that is handed back.
pub mod Laws
pub mod Closed
use domain_eval_weave.Base.{
  ℕ, zero, suc, String, Bool, true, false, Option, none, some, List, [], ◌∷◌, find, find_index,
  get_elem?, ◌==◌, template,
}
use domain_eval_weave.Base.Result.{capsule_error, Result, ok, require, or_throw, ◌>>=◌, ◌>>◌}
use domain_eval_weave.Platform.{Platform, canonical_json_digest}
use domain_eval_weave.Capsule.Contracts.{
  ClaimStatus, confirmed, proposed, Claim, Owner, CapsuleDomain, LoadedCapsule,
}
use domain_eval_weave.Capsule.Schema.Parse.{parse_capsule_domain}
use domain_eval_weave.Capsule.Semantics.{claim_confirmation_projection, status_name}

unfoldable pub is_proposed : ClaimStatus → Bool
is_proposed proposed = true
is_proposed _ = false

-- `claims.map((entry, index) => index === claimIndex ? change(entry) : entry)`
update_at {ℓ} : {A : Type ℓ} → ℕ → (A → Result A) → List A → Result (List A)
update_at i change [] = ok []
update_at zero change (x ∷ xs) = do y ← change x; ok (y ∷ xs)
update_at (suc i) change (x ∷ xs) = do ys ← update_at i change xs; ok (x ∷ ys)

confirm_entry : Platform → String → Claim → Result Claim
confirm_entry p owner_id entry = do
  digest ← canonical_json_digest p (claim_confirmation_projection entry)
  ok (record entry {
    status = confirmed;
    confirmation = some (record { owner_id = owner_id; projection_sha256 = digest });
  })

unfoldable pub confirm_capsule_claim :
    Platform → LoadedCapsule → String → String → Result (CapsuleDomain × Claim)
unfolding update_at confirm_entry is_proposed
confirm_capsule_claim p capsule claim_id owner_id = do
  owner ← or_throw (find (λ o. Owner.owner_id o == owner_id) capsule.domain.owners) (
      capsule_error "CAPSULE_OWNER_UNKNOWN"
        (template ("Owner " ∷ owner_id ∷ " is not declared by the Capsule domain" ∷ []))
        (some capsule.manifest.domain))
  let unknown =
      capsule_error "CAPSULE_CLAIM_UNKNOWN"
        (template ("Claim " ∷ claim_id ∷ " does not exist" ∷ [])) (some capsule.manifest.domain)
  index ← or_throw (find_index (λ c. Claim.claim_id c == claim_id) capsule.domain.claims) unknown
  claim ← or_throw (get_elem? capsule.domain.claims index) unknown
  require (is_proposed claim.status) (
      capsule_error "CAPSULE_CLAIM_NOT_PROPOSED"
        (template (
          "Only proposed Claims can be confirmed; "
          ∷ claim_id
          ∷ " is "
          ∷ status_name claim.status
          ∷ []))
        (some capsule.manifest.domain))
  claims ← update_at index (confirm_entry p owner_id) capsule.domain.claims
  confirmed_domain ← parse_capsule_domain (record capsule.domain { claims = claims })
  result ← or_throw (get_elem? confirmed_domain.claims index) unknown
  ok (confirmed_domain, result)
