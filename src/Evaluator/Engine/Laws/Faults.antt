-- ===== src/Evaluator/Engine/Laws/Faults.antt =====
-- Inputs at which `evaluateExecution` of packages/weave/src/evaluator/engine.ts throws, though the
-- schemas and `validateSemantics` accept them.
use domain_eval_weave.Base.{
  ◌≡◌, ◌≢◌, ◌∙◌, sym, ap, subst, arith, true, false, map, Any, is_empty, not, is_unique,
}
use domain_eval_weave.Base.Result.{ok, ok-inj}
use domain_eval_weave.Platform.{Platform}
use domain_eval_weave.Capsule.Contracts.{
  RequirementDelta, RequirementEdge, EvaluatorPackage, ClaimResult, EvaluationRun,
}
use domain_eval_weave.Capsule.Lookup.{find_requirement, find_evaluator}
use domain_eval_weave.Capsule.Schema.Patterns.{unique_by}
use domain_eval_weave.Capsule.Schema.Runs.{evaluation_run_schema}
use domain_eval_weave.Evaluator.Engine.Claims.{required_edges}
use domain_eval_weave.Evaluator.Engine.Run.{
  PersistedEvaluationRun, ExecutionInput, evaluate_execution, document_of,
}
use domain_eval_weave.Evaluator.Engine.Laws.Throws.{Throws, judge_edges-Throws}
use domain_eval_weave.Evaluator.Engine.Laws.Verdict.{
  evaluate_execution-Evaluates, evaluate_execution-fits, evaluate_execution-binds,
  final_diagnostics, early_diagnostics, judged_edges,
}

pub fits_unique :
    (run : EvaluationRun)
    → evaluation_run_schema run ≡ true
    → is_unique (map (λ c. ClaimResult.claim_id c) run.claims) ≡ true
unfolding evaluation_run_schema unique_by
fits_unique run h = ground arith

module _ (p : Platform) (input : ExecutionInput) (requirement : RequirementDelta)
    (found : find_requirement input.capsule input.requirement_id ≡ ok requirement) where
  -- A Requirement with two required edges on one Claim has no Run: the results repeat the Claim's
  -- id, which the schema of a Run refuses.
  pub evaluate_execution-repeated_claim :
      is_unique (map (λ e. RequirementEdge.claim_id e) (required_edges requirement.edges)) ≡ false
      → (out : PersistedEvaluationRun) → evaluate_execution p input ≢ ok out
  evaluate_execution-repeated_claim repeated out returned =
      let v = evaluate_execution-Evaluates p input out returned in
      let binds =
        evaluate_execution-binds p input out returned requirement v.evaluator found
          v.found_evaluator in
      let unique =
        sym (ap is_unique binds.0)
        ∙ fits_unique out.run (evaluate_execution-fits p input out returned) in
      cc (sym repeated ∙ unique)

  -- Where a required edge names a confirmed Claim and a check for that Claim throws, the evaluation
  -- throws too: it makes no Run, not even one that is inconclusive.
  pub evaluate_execution-Throws :
      (evaluator : EvaluatorPackage)
      → find_evaluator input.capsule input.evaluator_ref ≡ ok evaluator
      → Any
          (Throws input.capsule input.evaluator_ref evaluator.checks input.execution
            (document_of p input.execution (early_diagnostics p input))
            (not (is_empty (final_diagnostics p input))))
          (required_edges requirement.edges)
      → (out : PersistedEvaluationRun) → evaluate_execution p input ≢ ok out
  evaluate_execution-Throws evaluator found_e throws out returned =
      let v = evaluate_execution-Evaluates p input out returned in
      let same_r : v.requirement ≡ requirement = ok-inj _ _ (sym v.found_requirement ∙ found) in
      let same_e : v.evaluator ≡ evaluator = ok-inj _ _ (sym v.found_evaluator ∙ found_e) in
      let judged : judged_edges p input requirement evaluator ≡ ok v.results =
        subst (λ e. judged_edges p input requirement e ≡ ok v.results) same_e
          (subst (λ r. judged_edges p input r v.evaluator ≡ ok v.results) same_r v.judged) in
      judge_edges-Throws _ _ _ _ _ _ requirement.edges v.results judged throws
