-- ===== src/Domain/Readiness/Reasons/Laws.antt =====
-- When a readiness report gives no reason (src/domain/readiness.ts).
use domain_eval_weave.Base.{
  ◌≡◌, refl, sym, ◌∙◌, if◌then◌else◌, ap, String, Bool, true, false, ◌&&◌, some, List, [], ◌∷◌,
  ◌++◌, map, ◌==◌, filter, flat_map, includes, All, Pointwise-All, ◌↔◌, ◌⊎◌, ◌≢◌, inl, inr, arith,
  eq_iff, Bool-cases, Option-cases, some-inj, subst,
}
use domain_eval_weave.Base.Result.{ok, map_results, map_results-Pointwise, >>=-eq-ok, ok-inj}
use domain_eval_weave.Platform.{canonical_json_digest}
use domain_eval_weave.Domain.Contracts.{DomainPackPointer, owner_confirmed, RequirementStatus}
use domain_eval_weave.Domain.Graph.{Host}
use domain_eval_weave.Domain.Graph.Build.{RequirementInput}
use domain_eval_weave.Domain.Readiness.Documents.{
  EvidenceStatus, confirmed, proposed, unresolved, conflicted, observability_gap, question_json,
  resolved, is_open, QuestionStatus, is_conflicted_card, is_observability_gap,
}
use domain_eval_weave.Domain.Readiness.Reasons.{
  ReasonWithSeverity, CardInput, QuestionInput, Closure, card_reason, card_reasons, is_unowned,
  question_at, pointer_reasons, invalid_reason, open_reason, open_reasons, concat,
  requirement_reasons, is_owner_confirmed, unconfirmed_reason, blocks, binding_reasons,
}

module _ {A : Type 0} where
  flat_map-nil_iff :
      (f : A → List ReasonWithSeverity) (xs : List A)
      → (flat_map f xs ≡ []) ↔ All (λ x. f x ≡ []) xs
  flat_map-nil_iff f [] = ((λ e. tt), (λ a. refl))
  flat_map-nil_iff f (x ∷ xs) =
      let ih = flat_map-nil_iff f xs in
      (
        (λ e. let (here, later) = nil_parts (f x) (flat_map f xs) e in (here, ih.0 later)),
        (λ a. rw (a.0, ih.1 a.1) refl),
      )
    where
      nil_parts : (xs ys : List ReasonWithSeverity) → xs ++ ys ≡ [] → (xs ≡ []) × (ys ≡ [])
      nil_parts [] ys h = (refl, h)
      nil_parts (y ∷ xs) ys h = cc

  map-filter-nil_iff :
      (f : A → ReasonWithSeverity) (p : A → Bool) (xs : List A)
      → (map f (filter p xs) ≡ []) ↔ All (λ x. p x ≡ false) xs
  map-filter-nil_iff f p [] = ((λ e. tt), (λ a. refl))
  map-filter-nil_iff f p (x ∷ xs) =
      let ih = map-filter-nil_iff f p xs in
      elim (Bool-cases (p x)) [
        | inl e ↦ rw e ((λ n. cc), (λ a. cc))
        | inr e ↦ rw e ((λ n. (refl, ih.0 n)), (λ a. ih.1 a.1))
      ]

settled_iff :
    (known : Bool) (s : EvidenceStatus)
    → (((known && is_unowned s) ≡ false)
        × ((known && is_conflicted_card s) ≡ false)
        × ((known && is_observability_gap s) ≡ false))
      ↔ (known ≡ true → s ≡ confirmed)
settled_iff false s = ((λ h e. cc), (λ h. (refl, refl, refl)))
settled_iff true confirmed = ((λ h e. refl), (λ h. (refl, refl, refl)))
settled_iff true proposed = ((λ h e. cc), (λ h. cc (h refl)))
settled_iff true unresolved = ((λ h e. cc), (λ h. cc (h refl)))
settled_iff true conflicted = ((λ h e. cc), (λ h. cc (h refl)))
settled_iff true observability_gap = ((λ h e. cc), (λ h. cc (h refl)))

All-three :
    {A : Type 0} {P Q R S : A → Type 0} (xs : List A)
    → ((x : A) → (P x × Q x × R x) ↔ S x)
    → (All P xs × All Q xs × All R xs) ↔ All S xs
All-three [] h = ((λ a. tt), (λ a. (tt, tt, tt)))
All-three (x ∷ xs) h =
    let ih = All-three xs h in
    (
      (λ (p, q, r). ((h x).0 (p.0, q.0, r.0), ih.0 (p.1, q.1, r.1))),
      (λ s.
          let (p, q, r) = (h x).1 s.0 in
          let (ps, qs, rs) = ih.1 s.1 in ((p, ps), (q, qs), (r, rs))),
    )

-- The cards of a closure give no reason to any dimension exactly when all of them are confirmed.
pub card_reasons-nil_iff :
    (claim_ids : List String) (cards : List CardInput)
    → ((card_reasons is_unowned claim_ids cards ≡ [])
        × (card_reasons is_conflicted_card claim_ids cards ≡ [])
        × (card_reasons is_observability_gap claim_ids cards ≡ []))
      ↔ All (λ k. includes k.card.claim_id claim_ids ≡ true → k.card.status ≡ confirmed) cards
unfolding card_reasons
card_reasons-nil_iff claim_ids cards =
    let some_of : (EvidenceStatus → Bool) → CardInput → Bool =
      λ selects k. includes k.card.claim_id claim_ids && selects k.card.status in
    let a = map-filter-nil_iff (λ k. card_reason k) (some_of is_unowned) cards in
    let b = map-filter-nil_iff (λ k. card_reason k) (some_of is_conflicted_card) cards in
    let c = map-filter-nil_iff (λ k. card_reason k) (some_of is_observability_gap) cards in
    let all =
      All-three cards (λ k. settled_iff (includes k.card.claim_id claim_ids) k.card.status) in
    (
      (λ (x, y, z). all.0 (a.0 x, b.0 y, c.0 z)),
      (λ s. let (x, y, z) = all.1 s in (a.1 x, b.1 y, c.1 z)),
    )

-- A question that is bound as it stands, and resolved.
pub record IsAnswered (host : Host) (questions : List QuestionInput) (pointer : DomainPackPointer)
    : Type 0 where
  pub artifact : QuestionInput
  pub found : question_at questions pointer.ref ≡ some artifact
  pub bound :
      canonical_json_digest host.platform (question_json artifact.question) ≡ ok pointer.sha256
  pub answered : artifact.question.status ≡ resolved

status-cases :
    (s : QuestionStatus)
    → ((is_open s ≡ false) × (s ≡ resolved)) ⊎ ((is_open s ≡ true) × (s ≢ resolved))
status-cases s = ground arith

module _ (host : Host) (questions : List QuestionInput) (input : RequirementInput)
    (pointer : DomainPackPointer) where
  found_reasons : QuestionInput → String → List ReasonWithSeverity
  found_reasons artifact sha256 =
      if sha256 == pointer.sha256 then open_reasons artifact else invalid_reason input ∷ []

  found_reasons-nil_iff :
      (artifact : QuestionInput) (sha256 : String)
      → question_at questions pointer.ref ≡ some artifact
      → canonical_json_digest host.platform (question_json artifact.question) ≡ ok sha256
      → (found_reasons artifact sha256 ≡ []) ↔ IsAnswered host questions pointer
  unfolding found_reasons
  found_reasons-nil_iff artifact sha256 e made = (
    (λ n. record {
      artifact = artifact;
      found = e;
      bound = made ∙ ap (λ s. ok s) ((eq_iff sha256 pointer.sha256).0 (ground arith));
      answered = ground (arith, status-cases artifact.question.status);
    }),
    (λ a.
        let same = some-inj a.artifact artifact (sym a.found ∙ e) in
        let bound : canonical_json_digest host.platform (question_json artifact.question)
            ≡ ok pointer.sha256 =
          rw (← same) a.bound in
        let answered : artifact.question.status ≡ resolved = rw (← same) a.answered in
        let digest = ok-inj sha256 pointer.sha256 (sym made ∙ bound) in
        rw ((eq_iff sha256 pointer.sha256).1 digest, answered) refl),
  )

  pointer_reasons-nil_iff :
      (rs : List ReasonWithSeverity)
      → pointer_reasons host questions input pointer ≡ ok rs
      → (rs ≡ []) ↔ IsAnswered host questions pointer
  unfolding pointer_reasons found_reasons
  pointer_reasons-nil_iff rs h = elim (Option-cases (question_at questions pointer.ref)) [
    | inl e ↦
        let given = ok-inj (invalid_reason input ∷ []) rs (rw (pointer_reasons, e) at h) in
        ((λ n. cc), (λ a. let clash = sym e ∙ a.found in cc))
    | inr (artifact, e) ↦
        let digest = canonical_json_digest host.platform (question_json artifact.question) in
        let (sha256, made, last) = >>=-eq-ok digest _ (rw (pointer_reasons, e) at h) in
        subst (λ reasons. (reasons ≡ []) ↔ IsAnswered host questions pointer)
          (ok-inj (found_reasons artifact sha256) rs last)
          (found_reasons-nil_iff artifact sha256 e made)
  ]

-- What a requirement must satisfy where it stands in the closure.
pub record IsBound (host : Host) (questions : List QuestionInput) (input : RequirementInput)
    : Type 0 where
  pub owned : input.requirement.status ≡ owner_confirmed
  pub answered : All (IsAnswered host questions) input.requirement.decision_question_refs

owner-cases :
    (s : RequirementStatus)
    → ((is_owner_confirmed s ≡ true) × (s ≡ owner_confirmed))
      ⊎ ((is_owner_confirmed s ≡ false) × (s ≢ owner_confirmed))
owner-cases s = ground arith

concat-nil_iff :
    (rss : List (List ReasonWithSeverity)) → (concat rss ≡ []) ↔ All (λ rs. rs ≡ []) rss
concat-nil_iff rss = flat_map-nil_iff (λ (rs : List ReasonWithSeverity). rs) rss

append-nil_iff : (xs ys : List ReasonWithSeverity) → (xs ++ ys ≡ []) ↔ ((xs ≡ []) × (ys ≡ []))
append-nil_iff [] ys = ((λ h. (refl, h)), (λ h. h.1))
append-nil_iff (x ∷ xs) ys = ((λ h. cc), (λ h. cc))

requirement_reasons-nil_iff :
    (host : Host) (questions : List QuestionInput) (ids : List String) (input : RequirementInput)
    (rs : List ReasonWithSeverity)
    → requirement_reasons host questions ids input ≡ ok rs
    → (rs ≡ [])
      ↔ (includes input.requirement.requirement_id ids ≡ true → IsBound host questions input)
unfolding requirement_reasons
requirement_reasons-nil_iff host questions ids input rs h =
    elim (Bool-cases (includes input.requirement.requirement_id ids)) [
      | inr out ↦
          let given = ok-inj [] rs (rw (requirement_reasons, out) at h) in
          ((λ n e. cc), (λ k. sym given))
      | inl e ↦
          let refs = input.requirement.decision_question_refs in
          let own : List ReasonWithSeverity =
            if is_owner_confirmed input.requirement.status
            then []
            else unconfirmed_reason input ∷ [] in
          let (rss, made, last) =
            >>=-eq-ok (map_results (pointer_reasons host questions input) refs) _
              (rw (requirement_reasons, e) at h) in
          let given : own ++ concat rss ≡ rs = ok-inj _ rs last in
          let each =
            Pointwise-All refs rss
              (λ p qs made. pointer_reasons-nil_iff host questions input p qs made)
              (map_results-Pointwise _ refs rss made) in
          let parts = append-nil_iff own (concat rss) in
          let all = concat-nil_iff rss in
          (
            (λ n k.
                let (first, later) = parts.0 (given ∙ n) in
                record {
                  owned = ground (arith, owner-cases input.requirement.status);
                  answered = each.0 (all.0 later);
                }),
            (λ k.
                let bound = k e in
                let first : own ≡ [] = rw bound.owned refl in
                sym given ∙ parts.1 (first, all.1 (each.1 bound.answered))),
          )
    ]

-- The binding dimension gets no reason exactly when every requirement of the closure is confirmed
-- with all its questions answered, and no open question of no requirement blocks a Claim of it.
pub binding_reasons-nil_iff :
    (host : Host) (closure : Closure) (requirements : List RequirementInput)
    (questions : List QuestionInput) (rs : List ReasonWithSeverity)
    → binding_reasons host closure requirements questions ≡ ok rs
    → (rs ≡ []) ↔ (
        All
          (λ input.
            includes input.requirement.requirement_id closure.requirement_ids ≡ true
            → IsBound host questions input)
          requirements
        × All (λ q. blocks closure.claim_ids q ≡ false) questions)
unfolding binding_reasons
binding_reasons-nil_iff host closure requirements questions rs h =
    let (rss, made, last) =
      >>=-eq-ok
        (map_results (requirement_reasons host questions closure.requirement_ids) requirements) _
        h in
    let free = map (λ q. open_reason q) (filter (blocks closure.claim_ids) questions) in
    let given : concat rss ++ free ≡ rs = ok-inj _ rs last in
    let each =
      Pointwise-All requirements rss
        (λ input qs made.
          requirement_reasons-nil_iff host questions closure.requirement_ids input qs made)
        (map_results-Pointwise _ requirements rss made) in
    let parts = append-nil_iff (concat rss) free in
    let all = concat-nil_iff rss in
    let unblocked = map-filter-nil_iff (λ q. open_reason q) (blocks closure.claim_ids) questions in
    (
      (λ n. let (a, b) = parts.0 (given ∙ n) in (each.0 (all.0 a), unblocked.0 b)),
      (λ (a, b). sym given ∙ parts.1 (all.1 (each.1 a), unblocked.1 b)),
    )
