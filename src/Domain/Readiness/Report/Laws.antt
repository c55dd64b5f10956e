-- ===== src/Domain/Readiness/Report/Laws.antt =====
-- When a readiness report is green (src/domain/readiness.ts).
use domain_eval_weave.Base.{◌≡◌, true, false, List, includes, All, ◌↔◌}
use domain_eval_weave.Base.Result.{Result, ok}
use domain_eval_weave.Domain.Contracts.{ClaimDependencyGraph}
use domain_eval_weave.Domain.Graph.{Host}
use domain_eval_weave.Domain.Graph.Build.{RequirementInput}
use domain_eval_weave.Domain.Readiness.Documents.{confirmed}
use domain_eval_weave.Domain.Readiness.Reasons.{
  CardInput, QuestionInput, Closure, closure_objects, blocks,
}
use domain_eval_weave.Domain.Readiness.Reasons.Laws.{IsBound}
use domain_eval_weave.Domain.Readiness.Report.{
  ReadinessInput, DomainTruthReadiness, green, closure_of_request,
}

-- Nothing is left open in a closure: its Claims' cards are confirmed, its requirements are confirmed
-- with their questions answered, and no open question of no requirement blocks one of its Claims.
pub record IsSettled (host : Host) (closure : Closure) (cards : List CardInput)
    (requirements : List RequirementInput) (questions : List QuestionInput) : Type 0 where
  pub confirmed_cards :
      All (λ k. includes k.card.claim_id closure.claim_ids ≡ true → k.card.status ≡ confirmed) cards
  pub bound_requirements :
      All
        (λ r.
          includes r.requirement.requirement_id closure.requirement_ids ≡ true
          → IsBound host questions r)
        requirements
  pub unblocked : All (λ q. blocks closure.claim_ids q ≡ false) questions

module _ (host : Host) (input : ReadinessInput) (graph : ClaimDependencyGraph)
    (requirements : List RequirementInput) (cards : List CardInput)
    (questions : List QuestionInput) where
  -- The closure of the request, and when the report is green.
  Settles : DomainTruthReadiness → Type 0
  Settles r =
      (closure_of_request host input requirements ≡ ok r.requested_closure_node_ids)
      × ((r.overall ≡ green)
          ↔ IsSettled host (closure_objects graph.nodes r.requested_closure_node_ids) cards
              requirements questions)
