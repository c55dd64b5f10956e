-- ===== src/Capsule/Confirm/Laws.antt =====
-- What `confirmCapsuleClaim` of packages/weave/src/capsule/loader.ts changes.
use domain_eval_weave.Base.{
  ◌≡◌, ◌∙◌, refl, subst, ap, sym, ℕ, zero, suc, String, true, some, List, [], ◌∷◌, ◌≢◌, find,
  find_index, get_elem?, ◌==◌, arith, Any, Pointwise, find-some_iff, is_some,
}
use domain_eval_weave.Base.Result.{
  Result, ok, require_iff, or_throw, or_throw-ok, require, ok-inj, >>=-eq-ok,
}
use domain_eval_weave.Platform.{Platform, canonical_json_digest}
use domain_eval_weave.Capsule.Contracts.{
  ClaimStatus, confirmed, proposed, Claim, Owner, CapsuleDomain, LoadedCapsule,
}
use domain_eval_weave.Capsule.Schema.Parse.{parse_capsule_domain, parse_capsule_domain-ok}
use domain_eval_weave.Capsule.Semantics.{claim_confirmation_projection}
use domain_eval_weave.Capsule.Semantics.Laws.{Binds}
use domain_eval_weave.Capsule.Confirm.{is_proposed, update_at, confirm_entry, confirm_capsule_claim}

abbrev with_confirmation : Claim → String → String → Claim
with_confirmation entry owner_id digest = record entry {
  status = confirmed;
  confirmation = some (record { owner_id = owner_id; projection_sha256 = digest });
}

-- The change that a confirmation makes: the first Claim of the given id was proposed, its entry is
-- confirmed by a declared owner under the digest of its projection, and nothing else changes.
pub record Confirms (p : Platform) (capsule : LoadedCapsule) (claim_id owner_id : String)
    (after : CapsuleDomain) (result : Claim) : Type 0 where
  pub index : ℕ
  pub entry : Claim
  pub digest : String
  pub owner : Any (λ o. Owner.owner_id o ≡ owner_id) capsule.domain.owners
  pub found : find_index (λ c. Claim.claim_id c == claim_id) capsule.domain.claims ≡ some index
  pub before : get_elem? capsule.domain.claims index ≡ some entry
  pub was_proposed : entry.status ≡ proposed
  pub digests : canonical_json_digest p (claim_confirmation_projection entry) ≡ ok digest
  pub confirms : result ≡ with_confirmation entry owner_id digest
  pub at : get_elem? after.claims index ≡ some result
  pub others : (j : ℕ) → index ≢ j → get_elem? after.claims j ≡ get_elem? capsule.domain.claims j
  pub domain_id : after.domain_id ≡ capsule.domain.domain_id
  pub version : after.version ≡ capsule.domain.version
  pub owners : after.owners ≡ capsule.domain.owners

is_proposed_lem : (s : ClaimStatus) → is_proposed s ≡ true → s ≡ proposed
unfolding is_proposed
is_proposed_lem s h = ground arith

module _ {A : Type 0} (change : A → Result A) where
  update_at-get_elem? :
      (i : ℕ) (xs ys : List A) (a b : A)
      → update_at i change xs ≡ ok ys
      → get_elem? xs i ≡ some a
      → get_elem? ys i ≡ some b
      → change a ≡ ok b
  unfolding update_at
  update_at-get_elem? i [] ys a b h e f = cc
  update_at-get_elem? zero (x ∷ xs) ys a b h e f =
      let (y, changed, same) = >>=-eq-ok (change x) _ h in ground arith
  update_at-get_elem? (suc i) (x ∷ xs) [] a b h e f = cc
  update_at-get_elem? (suc i) (x ∷ xs) (y ∷ ys) a b h e f =
      let (zs, changed, same) = >>=-eq-ok (update_at i change xs) _ h in
      update_at-get_elem? i xs ys a b (ground arith) e f

  update_at-get_elem?_ne :
      (i j : ℕ) (xs ys : List A)
      → update_at i change xs ≡ ok ys
      → i ≢ j
      → get_elem? ys j ≡ get_elem? xs j
  unfolding update_at
  update_at-get_elem?_ne i j [] ys h d = ground arith
  update_at-get_elem?_ne zero zero (x ∷ xs) ys h d = absurd (d refl)
  update_at-get_elem?_ne zero (suc j) (x ∷ xs) ys h d =
      let (y, changed, same) = >>=-eq-ok (change x) _ h in ground arith
  update_at-get_elem?_ne (suc i) j (x ∷ xs) ys h d =
      let (zs, changed, same) = >>=-eq-ok (update_at i change xs) _ h in
      shifted j ys zs (ok-inj _ _ same) d (λ k. update_at-get_elem?_ne i k xs zs changed)
    where
      shifted :
          (j : ℕ) (ys zs : List A)
          → x ∷ zs ≡ ys
          → suc i ≢ j
          → ((k : ℕ) → i ≢ k → get_elem? zs k ≡ get_elem? xs k)
          → get_elem? ys j ≡ get_elem? (x ∷ xs) j
      shifted zero ys zs e d ih = ground arith
      shifted (suc k) ys zs e d ih = rw (← e) (ih k (λ q. d (ap suc q)))

abbrev pub Kept : Platform → Claim → Claim → Type 0
Kept p x y =
    (x.claim_id ≡ y.claim_id)
    × (x.source_ids ≡ y.source_ids)
    × (x.status ≡ confirmed → y.status ≡ confirmed)
    × (Binds p x x.confirmation → Binds p y y.confirmation)

Kept-refl : (p : Platform) (xs : List Claim) → Pointwise (Kept p) xs xs
Kept-refl p [] = tt
Kept-refl p (x ∷ xs) = ((refl, refl, (λ h. h), (λ h. h)), Kept-refl p xs)

update_at-Pointwise :
    (p : Platform) (change : Claim → Result Claim) (i : ℕ) (xs ys : List Claim)
    → update_at i change xs ≡ ok ys
    → ((x y : Claim) → change x ≡ ok y → Kept p x y)
    → Pointwise (Kept p) xs ys
unfolding update_at
update_at-Pointwise p change i [] [] h k = tt
update_at-Pointwise p change i [] (y ∷ ys) h k = cc
update_at-Pointwise p change zero (x ∷ xs) ys h k =
    let (y, changed, same) = >>=-eq-ok (change x) _ h in
    subst (Pointwise (Kept p) (x ∷ xs)) (ok-inj _ _ same) (k x y changed, Kept-refl p xs)
update_at-Pointwise p change (suc i) (x ∷ xs) ys h k =
    let (zs, changed, same) = >>=-eq-ok (update_at i change xs) _ h in
    subst (Pointwise (Kept p) (x ∷ xs)) (ok-inj _ _ same)
      ((refl, refl, (λ h. h), (λ h. h)), update_at-Pointwise p change i xs zs changed k)

confirm_entry-Kept :
    (p : Platform) (owner_id : String) (x y : Claim)
    → confirm_entry p owner_id x ≡ ok y
    → Kept p x y
unfolding confirm_entry claim_confirmation_projection
confirm_entry-Kept p owner_id x y h =
    let (digest, digests, last) =
      >>=-eq-ok (canonical_json_digest p (claim_confirmation_projection x)) _ h in
    subst (Kept p x) (ok-inj _ _ last) (refl, refl, (λ _. refl), (λ _. digests))

-- The values that the code computes on its way to a result.
record Steps (p : Platform) (capsule : LoadedCapsule) (claim_id owner_id : String)
    (after : CapsuleDomain) (result : Claim) : Type 0 where
  index : ℕ
  entry : Claim
  owner : is_some (find (λ o. Owner.owner_id o == owner_id) capsule.domain.owners) ≡ true
  found : find_index (λ c. Claim.claim_id c == claim_id) capsule.domain.claims ≡ some index
  before : get_elem? capsule.domain.claims index ≡ some entry
  allowed : is_proposed entry.status ≡ true
  change : update_at index (confirm_entry p owner_id) capsule.domain.claims ≡ ok after.claims
  rest : after ≡ record capsule.domain { claims = after.claims }
  at : get_elem? after.claims index ≡ some result

module _ (p : Platform) (capsule : LoadedCapsule) (claim_id owner_id : String)
    (after : CapsuleDomain) (result : Claim)
    (returned : confirm_capsule_claim p capsule claim_id owner_id ≡ ok (after, result)) where
  confirm_capsule_claim-Steps : Steps p capsule claim_id owner_id after result
  unfolding confirm_capsule_claim
  confirm_capsule_claim-Steps =
      let claims_before = capsule.domain.claims in
      let (o, owner, h₁) =
        >>=-eq-ok (or_throw (find (λ o. Owner.owner_id o == owner_id) capsule.domain.owners) _) _
          returned in
      let (i, found, h₂) =
        >>=-eq-ok (or_throw (find_index (λ c. Claim.claim_id c == claim_id) claims_before) _) _
          h₁ in
      let (entry, before, h₃) = >>=-eq-ok (or_throw (get_elem? claims_before i) _) _ h₂ in
      let (_, allowed, h₄) = >>=-eq-ok (require (is_proposed entry.status) _) _ h₃ in
      let (claims, updated, h₅) =
        >>=-eq-ok (update_at i (confirm_entry p owner_id) claims_before) _ h₄ in
      let (d, parsed, h₆) =
        >>=-eq-ok (parse_capsule_domain (record capsule.domain { claims = claims })) _ h₅ in
      let (c, taken, h₇) = >>=-eq-ok (or_throw (get_elem? d.claims i) _) _ h₆ in
      let unchanged = (parse_capsule_domain-ok _ d parsed).1 in
      let same = ok-inj (d, c) (after, result) h₇ in
      let e : after ≡ record capsule.domain { claims = claims } =
        sym (ap (λ t. t.0) same) ∙ unchanged in
      record {
        index = i;
        entry = entry;
        owner = ap is_some (or_throw-ok _ _ owner);
        found = or_throw-ok _ _ found;
        before = or_throw-ok _ _ before;
        allowed = (require_iff _ _).0 allowed;
        change = updated ∙ ap (λ (t : CapsuleDomain). ok t.claims) (sym e);
        rest = e ∙ ap (λ (t : CapsuleDomain). record capsule.domain { claims = t.claims }) (sym e);
        at =
            ap (λ (t : CapsuleDomain × Claim). get_elem? t.0.claims i) (sym same)
            ∙ (or_throw-ok _ _ taken ∙ ap (λ (t : CapsuleDomain × Claim). some t.1) same);
      }

  -- A confirmation that returns has changed one Claim, the first of the given id, which was
  -- proposed: it is confirmed by a declared owner under the digest of its projection, it is the
  -- Claim that is returned, and nothing else of the domain is changed.
  pub confirm_capsule_claim-Confirms : Confirms p capsule claim_id owner_id after result
  unfolding confirm_entry
  confirm_capsule_claim-Confirms =
      let s = confirm_capsule_claim-Steps in
      let entry = s.entry in
      let done =
        update_at-get_elem? (confirm_entry p owner_id) s.index _ _ entry result s.change s.before
          s.at in
      let (digest, digests, last) =
        >>=-eq-ok (canonical_json_digest p (claim_confirmation_projection entry)) _ done in
      record {
        index = s.index;
        entry = entry;
        digest = digest;
        owner = (find-some_iff (λ o. Owner.owner_id o) owner_id capsule.domain.owners).0 s.owner;
        found = s.found;
        before = s.before;
        was_proposed = is_proposed_lem entry.status s.allowed;
        digests = digests;
        confirms = sym (ok-inj _ _ last);
        at = s.at;
        others = λ j.
            update_at-get_elem?_ne (confirm_entry p owner_id) s.index j capsule.domain.claims
              after.claims s.change;
        domain_id = ap (λ t. CapsuleDomain.domain_id t) s.rest;
        version = ap (λ t. CapsuleDomain.version t) s.rest;
        owners = ap (λ t. CapsuleDomain.owners t) s.rest;
      }

  -- Every Claim keeps its id, its sources, a confirmed status and a binding confirmation.
  pub confirm_capsule_claim-Kept : Pointwise (Kept p) capsule.domain.claims after.claims
  confirm_capsule_claim-Kept =
      let s = confirm_capsule_claim-Steps in
      update_at-Pointwise p (confirm_entry p owner_id) s.index capsule.domain.claims after.claims
        s.change (confirm_entry-Kept p owner_id)
