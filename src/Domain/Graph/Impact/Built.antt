-- ===== src/Domain/Graph/Impact/Built.antt =====
-- The impact of a Claim in a graph that `buildClaimDependencyGraph` made (src/domain/graph.ts).
use domain_eval_weave.Base.{◌≡◌, String, true, includes, List, ◌↔◌, ◌≢◌}
use domain_eval_weave.Base.Result.{ok}
use domain_eval_weave.Domain.Contracts.{
  ProductDomainContract, ClaimDependencyGraph, NodeKind, historical_claim,
}
use domain_eval_weave.Domain.Graph.{Host}
use domain_eval_weave.Domain.Graph.Build.{RequirementInput, build_claim_dependency_graph}
use domain_eval_weave.Domain.Graph.Build.Laws.{build_claim_dependency_graph-IsClaimGraph}
use domain_eval_weave.Domain.Graph.Impact.{ClaimImpact, start_node, impacted_by_claim}
use domain_eval_weave.Domain.Graph.Impact.Laws.{objects, IsAffected, impacted_by_claim-IsAffected}

-- In a graph that was built, a Claim with a node has an impact: the call returns, and each of its
-- three lists holds exactly the objects of the nodes of its kind from which a chain of one or more
-- edges leads to the node of the Claim.
pub impacted_by_claim-build :
    (host : Host) (ref : String) (contract : ProductDomainContract) (inputs : List RequirementInput)
    (g : ClaimDependencyGraph) (claim_id target : String)
    → build_claim_dependency_graph host ref contract inputs ≡ ok g
    → start_node g.nodes claim_id ≡ ok target
    → (impact : ClaimImpact) × (impacted_by_claim host g claim_id ≡ ok impact)
      × ((kind : NodeKind) (x : String)
          → kind ≢ historical_claim
          → (includes x (objects kind impact) ≡ true) ↔ IsAffected g target kind x)
impacted_by_claim-build host ref contract inputs g claim_id target built found =
    let made = build_claim_dependency_graph-IsClaimGraph host ref contract inputs g built in
    impacted_by_claim-IsAffected host g claim_id target made.index made.asserted found
