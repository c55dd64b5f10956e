-- ===== src/Evaluator/Engine/Laws/Throws.antt =====
-- An edge with a check that throws has no result (packages/weave/src/evaluator/engine.ts).
use domain_eval_weave.Base.{
  ◌≡◌, ◌∙◌, sym, subst, String, Bool, Option, some, List, [], ◌∷◌, some-inj, Pointwise-Any, Any,
}
use domain_eval_weave.Base.Result.{
  Failure, ok, err, or_throw, or_throw-ok, >>=-eq-ok, map_results, map_results-Pointwise,
}
use domain_eval_weave.Json.{JsonValue}
use domain_eval_weave.Capsule.Contracts.{
  Claim, confirmed, RequirementEdge, EvaluatorCheck, ClaimResult, Axis, LoadedCapsule,
}
use domain_eval_weave.Capsule.Semantics.{claim_of}
use domain_eval_weave.Capsule.Semantics.Laws.{is_confirmed_iff}
use domain_eval_weave.Evaluator.Observation.{CandidateExecution}
use domain_eval_weave.Evaluator.Check.{evaluate_check}
use domain_eval_weave.Evaluator.Engine.Claims.{
  Outcome, checks_of, run_check, judge_checks, judge_claim, judge_edge, judge_edges, required_edges,
  axis_of,
}
use domain_eval_weave.Evaluator.Engine.Laws.Judgement.{judge_edges-Pointwise}

module _ (capsule : LoadedCapsule) (evaluator_ref : String) (all_checks : List EvaluatorCheck)
    (execution : CandidateExecution) (document : Option JsonValue) (has_diagnostics : Bool) where
  -- A check that throws, of a confirmed Claim that the edge names.
  abbrev pub Throws : RequirementEdge → Type 0
  Throws edge =
      (claim : Claim) × (claim_of capsule edge.claim_id ≡ some claim)
      × (claim.status ≡ confirmed)
      × Any (λ k. (e : Failure) × (evaluate_check k execution document ≡ err e))
          (checks_of claim.claim_id all_checks)

  run_check-throws :
      (k : EvaluatorCheck) (o : Outcome)
      → run_check capsule evaluator_ref all_checks execution document has_diagnostics k ≡ ok o
      → ¬ ((e : Failure) × (evaluate_check k execution document ≡ err e))
  unfolding run_check
  run_check-throws k o h (e, threw) =
      let (r, evaluated, same) = >>=-eq-ok (evaluate_check k execution document) _ h in
      cc (sym evaluated ∙ threw)

  judge_checks-throws :
      (claim : Claim) (axis : Axis) (ks : List EvaluatorCheck) (r : ClaimResult)
      → judge_checks capsule evaluator_ref all_checks execution document has_diagnostics claim axis
          ks
        ≡ ok r
      → ¬ Any (λ k. (e : Failure) × (evaluate_check k execution document ≡ err e)) ks
  unfolding judge_checks
  judge_checks-throws claim axis [] r h a = a
  judge_checks-throws claim axis (k ∷ ks) r h a =
      let run = run_check capsule evaluator_ref all_checks execution document has_diagnostics in
      let (os, ran, same) = >>=-eq-ok (map_results run (k ∷ ks)) _ h in
      Pointwise-Any _ (k ∷ ks) os run_check-throws (map_results-Pointwise run (k ∷ ks) os ran) a

  judge_edge-Throws :
      (edge : RequirementEdge) (r : ClaimResult)
      → judge_edge capsule evaluator_ref all_checks execution document has_diagnostics edge ≡ ok r
      → ¬ Throws edge
  unfolding judge_edge judge_claim
  judge_edge-Throws edge r h (c, found', is, a) =
      let (claim, found, judged) = >>=-eq-ok (or_throw (claim_of capsule edge.claim_id) _) _ h in
      let same : claim ≡ c = some-inj _ _ (sym (or_throw-ok _ _ found) ∙ found') in
      let judged_c =
        subst
          (λ q.
            judge_claim capsule evaluator_ref all_checks execution document has_diagnostics q
              (axis_of edge.relation)
            ≡ ok r)
          same judged in
      judge_checks-throws c (axis_of edge.relation) (checks_of c.claim_id all_checks) r
        (rw ((is_confirmed_iff c.status).1 is) at judged_c) a

  pub judge_edges-Throws :
      (edges : List RequirementEdge) (results : List ClaimResult)
      → judge_edges capsule evaluator_ref all_checks execution document has_diagnostics edges
        ≡ ok results
      → ¬ Any Throws (required_edges edges)
  judge_edges-Throws edges results judged =
      Pointwise-Any _ (required_edges edges) results judge_edge-Throws (
        judge_edges-Pointwise capsule evaluator_ref all_checks execution document has_diagnostics
          edges results judged)
