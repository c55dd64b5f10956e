-- ===== src/Evaluator/Engine/Laws/Judgement.antt =====
-- Each required edge gives one Claim result, and when that result passes
-- (packages/weave/src/evaluator/engine.ts).
use domain_eval_weave.Base.{
  ◌≡◌, ◌≢◌, ◌↔◌, ◌∙◌, refl, sym, subst, arith, String, Bool, true, false, Option, some, List, [],
  ◌∷◌, map, All, Pointwise, Pointwise-All, Pointwise-nil, Pointwise-keys, map_get-key, ap, some-inj,
  Bool-cases, inl, inr, Pointwise-All_right, ◌⊎◌,
}
use domain_eval_weave.Base.Result.{
  ok, or_throw, or_throw-ok, >>=-eq-ok, ok-inj, map_results, map_results-Pointwise,
}
use domain_eval_weave.Json.{JsonValue}
use domain_eval_weave.Capsule.Contracts.{
  Claim, confirmed, RequirementEdge, EvaluatorCheck, ClaimResult, Axis, pass, inconclusive,
  measurement_error, LoadedCapsule,
}
use domain_eval_weave.Capsule.Schema.Documents.{is_confirmed}
use domain_eval_weave.Capsule.Semantics.{claim_of}
use domain_eval_weave.Capsule.Semantics.Laws.{is_confirmed_iff}
use domain_eval_weave.Evaluator.Observation.{CandidateExecution}
use domain_eval_weave.Evaluator.Check.{CheckStatus, CheckResult, evaluate_check}
use domain_eval_weave.Evaluator.Engine.Claims.{
  Outcome, status_of, checks_of, run_check, judge_checks, judge_claim, judge_edge, judge_edges,
  required_edges, axis_of,
}

abbrev pub IsPassed : Outcome → Type 0
IsPassed o = o.result.status ≡ CheckStatus.pass

status_of-pass_iff :
    (bad : Bool) (os : List Outcome) → (status_of bad os ≡ pass) ↔ ((bad ≡ false) × All IsPassed os)
unfolding status_of
status_of-pass_iff true os = ((λ h. cc), (λ h. cc))
status_of-pass_iff false [] = ((λ h. (refl, tt)), (λ h. refl))
status_of-pass_iff false (o ∷ os) = ground (arith, status_of-pass_iff false os)

module _ (capsule : LoadedCapsule) (evaluator_ref : String) (all_checks : List EvaluatorCheck)
    (execution : CandidateExecution) (document : Option JsonValue) (has_diagnostics : Bool) where
  -- A check evaluates to a pass.
  abbrev pub Passes : EvaluatorCheck → Type 0
  Passes k =
      (r : CheckResult) × (evaluate_check k execution document ≡ ok r)
      × (r.status ≡ CheckStatus.pass)

  -- The Claim that an edge names is confirmed, the Evaluator has a check for it, nothing went wrong
  -- with the execution, and every check for it passes.
  pub record Demonstrated (edge : RequirementEdge) : Type 0 where
    pub claim : Claim
    pub found : claim_of capsule edge.claim_id ≡ some claim
    pub is : claim.status ≡ confirmed
    pub observed : checks_of claim.claim_id all_checks ≢ []
    pub clean : has_diagnostics ≡ false
    pub passes : All Passes (checks_of claim.claim_id all_checks)

  outcomes-IsPassed_iff :
      (k : EvaluatorCheck) (o : Outcome)
      → run_check capsule evaluator_ref all_checks execution document has_diagnostics k ≡ ok o
      → IsPassed o ↔ Passes k
  unfolding run_check
  outcomes-IsPassed_iff k o h =
      let (r, evaluated, same) = >>=-eq-ok (evaluate_check k execution document) _ h in
      (
        (λ p. (r, evaluated, ground arith)),
        (λ (q, evaluated', p). let e : r ≡ q = cc in ground arith),
      )

  judge_checks-pass_iff :
      (claim : Claim) (axis : Axis) (ks : List EvaluatorCheck) (r : ClaimResult)
      → judge_checks capsule evaluator_ref all_checks execution document has_diagnostics claim axis
          ks
        ≡ ok r
      → (r.status ≡ pass) ↔ ((ks ≢ []) × (has_diagnostics ≡ false) × All Passes ks)
  unfolding judge_checks
  judge_checks-pass_iff claim axis [] r h = ((λ e. ground arith), (λ e. absurd (e.0 refl)))
  judge_checks-pass_iff claim axis (k ∷ ks) r h =
      let run = run_check capsule evaluator_ref all_checks execution document has_diagnostics in
      let (os, ran, same) = >>=-eq-ok (map_results run (k ∷ ks)) _ h in
      let each = map_results-Pointwise run (k ∷ ks) os ran in
      let passed = Pointwise-All (k ∷ ks) os outcomes-IsPassed_iff each in
      let status : r.status ≡ status_of has_diagnostics os =
        ap (λ t. ClaimResult.status t) (sym (ok-inj _ _ same)) in
      (
        (λ e.
            let (clean, all) = (status_of-pass_iff has_diagnostics os).0 (sym status ∙ e) in
            ((λ n. cc), clean, passed.0 all)),
        (λ (n, clean, all).
            status ∙ (status_of-pass_iff has_diagnostics os).1 (clean, passed.1 all)),
      )

  -- What a passing result says of its Claim.
  abbrev Shown : Claim → Type 0
  Shown claim =
      (claim.status ≡ confirmed)
      × (checks_of claim.claim_id all_checks ≢ [])
      × (has_diagnostics ≡ false)
      × All Passes (checks_of claim.claim_id all_checks)

  judge_claim-pass_iff :
      (claim : Claim) (axis : Axis) (r : ClaimResult)
      → judge_claim capsule evaluator_ref all_checks execution document has_diagnostics claim axis
        ≡ ok r
      → (r.status ≡ pass) ↔ Shown claim
  unfolding judge_claim
  judge_claim-pass_iff claim axis r h = elim (Bool-cases (is_confirmed claim.status)) [
    | inl is ↦
        let parts =
          judge_checks-pass_iff claim axis (checks_of claim.claim_id all_checks) r (rw is at h) in
        (
          (λ e.
              let (n, clean, all) = parts.0 e in
              ((is_confirmed_iff claim.status).0 is, n, clean, all)),
          (λ d. parts.1 (d.1, d.2, d.3)),
        )
    | inr isnt ↦ (
      (λ e. cc (not_passing (rw isnt at h) e)),
      (λ d. cc ((is_confirmed_iff claim.status).1 d.0)),
    )
  ]
    where
      not_passing : {c : ClaimResult} → ok c ≡ ok r → r.status ≡ pass → c.status ≡ pass
      not_passing e q = ap (λ t. ClaimResult.status t) (ok-inj _ _ e) ∙ q

  judge_edge-pass_iff :
      (edge : RequirementEdge) (r : ClaimResult)
      → judge_edge capsule evaluator_ref all_checks execution document has_diagnostics edge ≡ ok r
      → (r.status ≡ pass) ↔ Demonstrated edge
  unfolding judge_edge
  judge_edge-pass_iff edge r h =
      let (claim, found, judged) = >>=-eq-ok (or_throw (claim_of capsule edge.claim_id) _) _ h in
      let at = or_throw-ok _ _ found in
      let shown = judge_claim-pass_iff claim (axis_of edge.relation) r judged in
      (
        (λ e.
            let (is, n, clean, all) = shown.0 e in
            record {
              claim = claim;
              found = at;
              is = is;
              observed = n;
              clean = clean;
              passes = all;
            }),
        (λ d.
            shown.1 (
              subst Shown (some-inj _ _ (sym d.found ∙ at)) (d.is, d.observed, d.clean, d.passes))),
      )

  judge_checks-claim_id :
      (claim : Claim) (axis : Axis) (ks : List EvaluatorCheck) (r : ClaimResult)
      → judge_checks capsule evaluator_ref all_checks execution document has_diagnostics claim axis
          ks
        ≡ ok r
      → r.claim_id ≡ claim.claim_id
  unfolding judge_checks
  judge_checks-claim_id claim axis [] r h = ap (λ t. ClaimResult.claim_id t) (sym (ok-inj _ _ h))
  judge_checks-claim_id claim axis (k ∷ ks) r h =
      let run = run_check capsule evaluator_ref all_checks execution document has_diagnostics in
      let (os, ran, same) = >>=-eq-ok (map_results run (k ∷ ks)) _ h in
      ap (λ t. ClaimResult.claim_id t) (sym (ok-inj _ _ same))

  judge_claim-claim_id :
      (claim : Claim) (axis : Axis) (r : ClaimResult)
      → judge_claim capsule evaluator_ref all_checks execution document has_diagnostics claim axis
        ≡ ok r
      → r.claim_id ≡ claim.claim_id
  unfolding judge_claim
  judge_claim-claim_id claim axis r h = elim (Bool-cases (is_confirmed claim.status)) [
    | inl is ↦ judge_checks-claim_id claim axis (checks_of claim.claim_id all_checks) r (rw is at h)
    | inr isnt ↦ same_id (rw isnt at h)
  ]
    where
      same_id : {c : ClaimResult} → ok c ≡ ok r → r.claim_id ≡ c.claim_id
      same_id e = ap (λ t. ClaimResult.claim_id t) (sym (ok-inj _ _ e))

  judge_edge-claim_id :
      (edge : RequirementEdge) (r : ClaimResult)
      → judge_edge capsule evaluator_ref all_checks execution document has_diagnostics edge ≡ ok r
      → r.claim_id ≡ edge.claim_id
  unfolding judge_edge
  judge_edge-claim_id edge r h =
      let (claim, found, judged) = >>=-eq-ok (or_throw (claim_of capsule edge.claim_id) _) _ h in
      judge_claim-claim_id claim (axis_of edge.relation) r judged
      ∙ map_get-key (λ c. Claim.claim_id c) edge.claim_id capsule.domain.claims claim
          (or_throw-ok _ _ found)

  abbrev pub IsUnjudged : ClaimResult → Type 0
  IsUnjudged r = (r.status ≡ inconclusive) ⊎ (r.status ≡ measurement_error)

  judge_checks-IsUnjudged :
      (claim : Claim) (axis : Axis) (ks : List EvaluatorCheck) (r : ClaimResult)
      → has_diagnostics ≡ true
      → judge_checks capsule evaluator_ref all_checks execution document has_diagnostics claim axis
          ks
        ≡ ok r
      → IsUnjudged r
  unfolding judge_checks status_of
  judge_checks-IsUnjudged claim axis [] r bad h =
      inl (ap (λ t. ClaimResult.status t) (sym (ok-inj _ _ h)))
  judge_checks-IsUnjudged claim axis (k ∷ ks) r bad h =
      let run = run_check capsule evaluator_ref all_checks execution document has_diagnostics in
      let (os, ran, same) = >>=-eq-ok (map_results run (k ∷ ks)) _ h in
      let e = ap (λ t. ClaimResult.status t) (sym (ok-inj _ _ same)) in inr (e ∙ (rw bad refl))

  judge_claim-IsUnjudged :
      (claim : Claim) (axis : Axis) (r : ClaimResult)
      → has_diagnostics ≡ true
      → judge_claim capsule evaluator_ref all_checks execution document has_diagnostics claim axis
        ≡ ok r
      → IsUnjudged r
  unfolding judge_claim
  judge_claim-IsUnjudged claim axis r bad h = elim (Bool-cases (is_confirmed claim.status)) [
    | inl is ↦
        judge_checks-IsUnjudged claim axis (checks_of claim.claim_id all_checks) r bad (rw is at h)
    | inr isnt ↦ inl (ap (λ t. ClaimResult.status t) (sym (ok-inj _ _ (rw isnt at h))))
  ]

  judge_edge-IsUnjudged :
      has_diagnostics ≡ true
      → (edge : RequirementEdge) (r : ClaimResult)
      → judge_edge capsule evaluator_ref all_checks execution document has_diagnostics edge ≡ ok r
      → IsUnjudged r
  unfolding judge_edge
  judge_edge-IsUnjudged bad edge r h =
      let (claim, found, judged) = >>=-eq-ok (or_throw (claim_of capsule edge.claim_id) _) _ h in
      judge_claim-IsUnjudged claim (axis_of edge.relation) r bad judged

  module _ (edges : List RequirementEdge) (results : List ClaimResult)
      (judged : judge_edges capsule evaluator_ref all_checks execution document has_diagnostics
          edges
        ≡ ok results) where
    pub judge_edges-Pointwise :
        Pointwise
          (λ edge r.
            judge_edge capsule evaluator_ref all_checks execution document has_diagnostics edge
            ≡ ok r)
          (required_edges edges)
          results
    unfolding judge_edges
    judge_edges-Pointwise =
        map_results-Pointwise
          (judge_edge capsule evaluator_ref all_checks execution document has_diagnostics)
          (required_edges edges) results judged

    -- The results are about the Claims of the required edges, one for each, in their order.
    pub judge_edges-claim_ids :
        map (λ r. ClaimResult.claim_id r) results
        ≡ map (λ e. RequirementEdge.claim_id e) (required_edges edges)
    judge_edges-claim_ids =
        Pointwise-keys (λ e. RequirementEdge.claim_id e) (λ r. ClaimResult.claim_id r)
          (required_edges edges) results judge_edge-claim_id judge_edges-Pointwise

    -- All results pass exactly when every required edge is demonstrated.
    pub judge_edges-pass_iff :
        All (λ r. ClaimResult.status r ≡ pass) results ↔ All Demonstrated (required_edges edges)
    judge_edges-pass_iff =
        Pointwise-All (required_edges edges) results judge_edge-pass_iff judge_edges-Pointwise

    pub judge_edges-ne-nil : (results ≢ []) ↔ (required_edges edges ≢ [])
    judge_edges-ne-nil = Pointwise-nil _ (required_edges edges) results judge_edges-Pointwise

    -- Where the execution has a diagnostic, no Claim passes or fails.
    pub judge_edges-IsUnjudged : has_diagnostics ≡ true → All IsUnjudged results
    judge_edges-IsUnjudged bad =
        Pointwise-All_right _ (required_edges edges) results (judge_edge-IsUnjudged bad)
          judge_edges-Pointwise
