-- ===== src/Domain/Graph/Contribution.antt =====
-- The nodes and edges that a Contract and a requirement add to the claim graph (src/domain/graph.ts).
use domain_eval_weave.Base.{
  String, Option, none, some, List, [], ◌∷◌, ◌++◌, map, ◌==◌, any, includes, flat_map, eqb,
  template, decimal, if◌then◌else◌,
}
use domain_eval_weave.Base.Result.{
  Failure, plain_error, Result, ok, require, map_results, ◌>>=◌, ◌>>◌,
}
use domain_eval_weave.Domain.Contracts.{
  ContractClaimRef, TransitionKind, supersedes_claim, retires_claim, ClaimTransition,
  ProductDomainClaim, ProductDomainContract, ProposedClaim, ClaimModification, RequirementChangeSet,
  contract_claim, historical_claim, proposed_claim, GraphNode, EdgeKind, depends_on, uses,
  preserves, introduces, modifies, deprecates, conflicts_with, supersedes, retires, GraphEdge,
}
use domain_eval_weave.Domain.Graph.{claim_node_id, requirement_node_id, proposal_node_id}

-- What one part of the input adds to the graph.
pub record Contribution : Type 0 where
  pub nodes : List GraphNode
  pub edges : List GraphEdge

abbrev no_contribution : Contribution
no_contribution = record { nodes = []; edges = [] }

abbrev pub both : Contribution → Contribution → Contribution
both c d = record { nodes = c.nodes ++ d.nodes; edges = c.edges ++ d.edges }

abbrev version_error : ContractClaimRef → ProductDomainContract → Failure
version_error reference contract = plain_error (
    template (
      "Claim "
      ∷ reference.claim_id
      ∷ " pins Contract version "
      ∷ decimal reference.contract_version
      ∷ ", expected "
      ∷ decimal contract.version
      ∷ []))

unfoldable pub assert_claim_ref : ProductDomainContract → ContractClaimRef → Result (Unit {0})
assert_claim_ref contract reference =
    require (eqb reference.contract_version contract.version) (version_error reference contract)
    >> require (includes reference.claim_id (map (λ k. k.claim_id) contract.claims))
        (plain_error (template ("Requirement references unknown Claim " ∷ reference.claim_id ∷ [])))

-- An edge to a Claim of the contract.
abbrev reference_edge :
    ProductDomainContract → String → EdgeKind → ContractClaimRef → Result GraphEdge
reference_edge contract from kind reference =
    assert_claim_ref contract reference
    >> ok (record {
      from = from;
      to = claim_node_id reference.contract_version reference.claim_id;
      kind = kind;
    })

abbrev proposal_node : RequirementChangeSet → ProposedClaim → GraphNode
proposal_node r proposed = record {
  node_id = proposal_node_id r.version r.requirement_id proposed.claim_id;
  kind = proposed_claim;
  object_id = proposed.claim_id;
  object_version = r.version;
  domain_id = some proposed.domain_id;
}

abbrev introduction : RequirementChangeSet → String → ProposedClaim → Contribution
introduction r from proposed =
    let node : GraphNode = proposal_node r proposed in
    record {
      nodes = node ∷ [];
      edges = record { from = from; to = node.node_id; kind = introduces } ∷ [];
    }

abbrev modification :
    ProductDomainContract → RequirementChangeSet → String → ClaimModification → Result Contribution
modification contract r from m =
    let node : GraphNode = proposal_node r m.proposed in
    assert_claim_ref contract m.claim
    >> ok (record {
      nodes = node ∷ [];
      edges =
          record { from = from; to = node.node_id; kind = modifies }
          ∷ record {
            from = node.node_id;
            to = claim_node_id m.claim.contract_version m.claim.claim_id;
            kind = depends_on;
          }
          ∷ [];
    })

abbrev sum_of : List Contribution → Contribution
sum_of [] = no_contribution
sum_of (c ∷ cs) = both c (sum_of cs)

abbrev pub requirement_from : RequirementChangeSet → String
requirement_from r = requirement_node_id r.version r.requirement_id

unfoldable pub requirement_edges :
    ProductDomainContract → RequirementChangeSet → Result Contribution
unfolding assert_claim_ref
requirement_edges contract r =
    let from : String = requirement_from r in
    map_results (reference_edge contract from uses) r.effects.uses >>= λ used.
    map_results (reference_edge contract from preserves) r.effects.preserves >>= λ preserved.
    map_results (reference_edge contract from deprecates) r.effects.deprecates >>= λ deprecated.
    map_results (λ c. reference_edge contract from conflicts_with c.claim) r.effects.conflicts_with
    >>= λ conflicts. map_results (modification contract r from) r.effects.modifies >>= λ modified.
        let references : Contribution = record {
          nodes = [];
          edges = used ++ preserved ++ deprecated ++ conflicts;
        } in
        ok (
          both references
            (both (sum_of (map (introduction r from) r.effects.introduces)) (sum_of modified)))

abbrev claim_node : ProductDomainContract → ProductDomainClaim → GraphNode
claim_node contract claim = record {
  node_id = claim_node_id contract.version claim.claim_id;
  kind = contract_claim;
  object_id = claim.claim_id;
  object_version = contract.version;
  domain_id = some claim.domain_id;
}

abbrev dependency_edge : ProductDomainContract → ProductDomainClaim → ContractClaimRef → GraphEdge
dependency_edge contract claim dependency = record {
  from = claim_node_id contract.version claim.claim_id;
  to = claim_node_id dependency.contract_version dependency.claim_id;
  kind = depends_on;
}

abbrev transition_edge_kind : TransitionKind → EdgeKind
transition_edge_kind supersedes_claim = supersedes
transition_edge_kind retires_claim = retires

abbrev historical_node : ProductDomainClaim → ClaimTransition → GraphNode
historical_node claim t = record {
  node_id = claim_node_id t.predecessor.contract_version t.predecessor.claim_id;
  kind = historical_claim;
  object_id = t.predecessor.claim_id;
  object_version = t.predecessor.contract_version;
  domain_id = some claim.domain_id;
}

abbrev transition_edge : ProductDomainContract → ProductDomainClaim → ClaimTransition → GraphEdge
transition_edge contract claim t = record {
  from = claim_node_id contract.version claim.claim_id;
  to = claim_node_id t.predecessor.contract_version t.predecessor.claim_id;
  kind = transition_edge_kind t.kind;
}

-- A historical node is added once, and an edge to it for each transition.
abbrev add_transition :
    ProductDomainContract
    → Contribution
    → ProductDomainClaim
    → Option ClaimTransition
    → Contribution
add_transition contract c claim none = c
add_transition contract c claim (some t) =
    let node : GraphNode = historical_node claim t in
    record {
      nodes =
          if any (λ n. n.node_id == node.node_id) c.nodes then c.nodes else c.nodes ++ (node ∷ []);
      edges = c.edges ++ (transition_edge contract claim t ∷ []);
    }

abbrev add_transitions :
    ProductDomainContract → Contribution → List ProductDomainClaim → Contribution
add_transitions contract c [] = c
add_transitions contract c (claim ∷ claims) =
    add_transitions contract (add_transition contract c claim claim.transition) claims

-- The nodes and edges of the contract alone.
unfoldable pub contract_part : ProductDomainContract → Contribution
contract_part contract =
    add_transitions contract
      (record {
        nodes = map (λ claim. claim_node contract claim) contract.claims;
        edges =
            flat_map (λ claim. map (dependency_edge contract claim) claim.dependencies)
              contract.claims;
      })
      contract.claims
