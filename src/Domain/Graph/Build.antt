-- ===== src/Domain/Graph/Build.antt =====
-- `buildClaimDependencyGraph` (src/domain/graph.ts), on documents of the right shape.
pub mod Laws
use domain_eval_weave.Base.{
  String, ◌&&◌, ◌||◌, not, none, List, [], ◌∷◌, ◌++◌, map, ◌==◌, is_unique, template, decimal, take,
  sort_by, if◌then◌else◌,
}
use domain_eval_weave.Base.Result.{
  Failure, plain_error, Result, ok, require, map_results, ◌>>=◌, ◌>>◌,
}
use domain_eval_weave.Json.{JsonValue}
use domain_eval_weave.Json.Build.{array, object}
use domain_eval_weave.Platform.{canonical_json_digest}
use domain_eval_weave.Domain.Contracts.{
  DomainPackPointer, ProductDomainContract, RequirementChangeSet, requirement, GraphNode,
  ClaimDependencyGraph,
}
use domain_eval_weave.Domain.Encode.{
  pointer_json, contract_json, requirement_json, node_json, graph_edge_json,
}
use domain_eval_weave.Domain.Schema.{
  parse_pointer, parse_product_domain_contract, parse_requirement_change_set,
  parse_claim_dependency_graph,
}
use domain_eval_weave.Domain.Graph.{Host, edge_key, sort_nodes, sort_edges, build_reverse_index}
use domain_eval_weave.Domain.Graph.Assert.{
  assert_no_dependency_cycle, assert_claim_dependency_graph_semantics,
}
use domain_eval_weave.Domain.Graph.Contribution.{
  Contribution, both, requirement_from, requirement_edges, contract_part,
}

pub record RequirementInput : Type 0 where
  pub ref : String
  pub requirement : RequirementChangeSet

abbrev product_error : RequirementChangeSet → Failure
product_error r =
    plain_error (template ("Requirement " ∷ r.requirement_id ∷ " belongs to another product" ∷ []))

abbrev pin_error : RequirementChangeSet → Failure
pin_error r =
    plain_error
      (template ("Requirement " ∷ r.requirement_id ∷ " does not pin the exact Contract" ∷ []))

abbrev requirement_node : RequirementChangeSet → GraphNode
requirement_node r = record {
  node_id = requirement_from r;
  kind = requirement;
  object_id = r.requirement_id;
  object_version = r.version;
  domain_id = none;
}

-- The loop over the requirements, from the nodes and edges so far.
unfoldable pub add_requirements :
    ProductDomainContract
    → DomainPackPointer
    → Contribution
    → List RequirementInput
    → Result Contribution
add_requirements contract pointer c [] = ok c
add_requirements contract pointer c (input ∷ inputs) =
    let r : RequirementChangeSet = input.requirement in
    require (r.product_id == contract.product_id) (product_error r)
    >> require ((r.base_contract.ref == pointer.ref) && (r.base_contract.sha256 == pointer.sha256))
        (pin_error r)
    >> requirement_edges contract r
    >>= λ more.
        add_requirements contract pointer
          (both c (record { nodes = requirement_node r ∷ more.nodes; edges = more.edges })) inputs

abbrev requirement_key : RequirementInput → String
requirement_key input =
    template (input.requirement.requirement_id ∷ "\0" ∷ decimal input.requirement.version ∷ [])

abbrev pub parse_input : RequirementInput → Result RequirementInput
parse_input input =
    parse_requirement_change_set input.requirement >>= λ r. ok (record input { requirement = r })

abbrev pub requirement_pointer : Host → RequirementInput → Result DomainPackPointer
requirement_pointer host input =
    canonical_json_digest host.platform (requirement_json input.requirement) >>= λ sha256.
    parse_pointer input.ref sha256

-- The nodes and edges of the contract and its requirements, after the checks that each is unique.
unfoldable pub collect_parts :
    Host
    → String
    → ProductDomainContract
    → List RequirementInput
    → Result (DomainPackPointer × Contribution)
collect_parts host ref contract inputs =
    canonical_json_digest host.platform (contract_json contract) >>= λ sha256.
    parse_pointer ref sha256 >>= λ pointer. map_results parse_input inputs >>= λ requirements.
    require (is_unique (map (λ input. requirement_key input) requirements))
      (plain_error "Requirement id+version pairs must be unique within one graph")
    >> add_requirements contract pointer (contract_part contract) requirements
    >>= λ parts.
        require (is_unique (map (λ n. n.node_id) parts.nodes))
          (plain_error "Claim graph node ids must be unique")
        >> require (is_unique (map edge_key parts.edges))
            (plain_error "Claim graph edges must be unique")
        >> ok (pointer, parts)

abbrev graph_of :
    Host
    → ProductDomainContract
    → DomainPackPointer
    → List DomainPackPointer
    → Contribution
    → String
    → ClaimDependencyGraph
graph_of host contract pointer requirements sorted digest = record {
  graph_id = template ("graph-" ∷ contract.product_id ∷ "-" ∷ take 12 digest ∷ []);
  product_id = contract.product_id;
  contract = pointer;
  requirements = requirements;
  nodes = sorted.nodes;
  edges = sorted.edges;
  reverse_index = build_reverse_index host sorted.edges;
}

abbrev sorted_parts : Host → Contribution → Contribution
sorted_parts host c = record { nodes = sort_nodes host c.nodes; edges = sort_edges host c.edges }

abbrev pub sorted_pointers : Host → List DomainPackPointer → List DomainPackPointer
sorted_pointers host pointers = sort_by (λ p q. host.locale_leb p.ref q.ref) pointers

-- What the id of the graph digests.
abbrev graph_key : DomainPackPointer → List DomainPackPointer → Contribution → JsonValue
graph_key pointer requirements sorted = object (
    ("contract", pointer_json pointer)
    ∷ ("requirements", array (map (λ p. pointer_json p) requirements))
    ∷ ("nodes", array (map node_json sorted.nodes))
    ∷ ("edges", array (map graph_edge_json sorted.edges))
    ∷ [])

-- `parseClaimDependencyGraph({ ... })` and the assertion on what it returns.
unfoldable pub finish_graph :
    Host
    → ProductDomainContract
    → DomainPackPointer
    → List DomainPackPointer
    → Contribution
    → Result ClaimDependencyGraph
finish_graph host contract pointer requirements sorted =
    canonical_json_digest host.platform (graph_key pointer requirements sorted) >>= λ digest.
    parse_claim_dependency_graph (graph_of host contract pointer requirements sorted digest)
    >>= λ graph. assert_claim_dependency_graph_semantics host graph >> ok graph

unfoldable pub build_claim_dependency_graph :
    Host → String → ProductDomainContract → List RequirementInput → Result ClaimDependencyGraph
build_claim_dependency_graph host ref input inputs =
    parse_product_domain_contract input >>= λ contract.
    collect_parts host ref contract inputs >>= λ collected.
    assert_no_dependency_cycle collected.1.nodes collected.1.edges
    >> map_results (requirement_pointer host) inputs
    >>= λ pointers.
        finish_graph host contract collected.0 (sorted_pointers host pointers)
          (sorted_parts host collected.1)
