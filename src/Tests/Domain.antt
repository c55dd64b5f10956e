-- ===== src/Tests/Domain.antt =====
-- A product domain of two Claims, one of which depends on the other, and a requirement that uses
-- the first and modifies the second.
use domain_eval_weave.Base.{
  ◌≡◌, refl, String, true, includes, none, some, List, [], ◌∷◌, text_leb, ◌↔◌, ◌⊎◌, inl, inr,
}
use domain_eval_weave.Base.Result.{Result, ok, err}
use domain_eval_weave.Domain.Index.{Index, lookup}
use domain_eval_weave.Domain.Contracts.{
  DomainPackPointer, DomainSourceRef, owner_statement, low, high, ContractClaimRef, active,
  ProductDomainClaim, ProductDomainContract, ProposedClaim, RequirementEffects, owner_confirmed,
  RequirementChangeSet, contract_claim, GraphNode, depends_on, GraphEdge, ClaimDependencyGraph,
  NodeKind, historical_claim,
}
use domain_eval_weave.Domain.Graph.{Host}
use domain_eval_weave.Domain.Graph.Build.{RequirementInput, build_claim_dependency_graph}
use domain_eval_weave.Domain.Graph.Impact.{ClaimImpact, start_node, impacted_by_claim}
use domain_eval_weave.Base.{
  all_codes, codes_count, decimal, has_part, join, sort, sort_by, split, starts_with, take, drop,
  template,
}
use domain_eval_weave.Capsule.Schema.Patterns.{id_matches, sha256_matches, code_matches, non_empty}
use domain_eval_weave.Domain.Cycle.{visit, visit_all}
use domain_eval_weave.Domain.Encode.{
  contract_json, graph_edge_json, index_json, node_json, requirement_json,
}
use domain_eval_weave.Domain.Graph.{
  build_reverse_index, claim_node_id, dependency_adjacency, edge_key, proposal_node_id,
  requirement_node_id, sort_edges, sort_nodes,
}
use domain_eval_weave.Domain.Graph.Assert.{
  assert_claim_dependency_graph_semantics, assert_no_dependency_cycle,
}
use domain_eval_weave.Domain.Graph.Build.{add_requirements, collect_parts, finish_graph}
use domain_eval_weave.Domain.Graph.Contribution.{assert_claim_ref, contract_part, requirement_edges}
use domain_eval_weave.Domain.Schema.{
  contract_issues, graph_fits, node_id_matches, graph_issues, is_package_relative,
  parse_claim_dependency_graph, parse_pointer, parse_product_domain_contract,
  parse_requirement_change_set, requirement_issues,
}
use domain_eval_weave.Json.{canonical_json, serialize}
use domain_eval_weave.Json.Quote.{quote}
use domain_eval_weave.Platform.{canonical_json_digest}
use domain_eval_weave.Base.{Any, All, ◌≢◌}
use domain_eval_weave.Domain.Graph.Build.Laws.{
  IsClaimGraph, build_claim_dependency_graph-IsClaimGraph,
}
use domain_eval_weave.Domain.Graph.Impact.Laws.{objects, IsAffected}
use domain_eval_weave.Domain.Graph.Impact.Built.{impacted_by_claim-build}
use domain_eval_weave.Domain.Graph.Assert.{cycle_error}
use domain_eval_weave.Domain.Graph.Assert.Laws.{DependsOn, assert_no_dependency_cycle_decides}
use domain_eval_weave.Domain.Graph.Links.{build_reverse_index_iff}
use domain_eval_weave.Domain.Search.{search, explore, Reach}
use domain_eval_weave.Domain.Search.Laws.{search_decides}
use domain_eval_weave.Domain.Readiness.Documents.{request_json}
use domain_eval_weave.Domain.Encode.{graph_json}
use domain_eval_weave.Domain.Readiness.Closure.{
  Requested, requested_ids, requested_closure, undirected_adjacency,
}
use domain_eval_weave.Domain.Readiness.Closure.Laws.{Connected, requested_closure-Connected}
use domain_eval_weave.Domain.Readiness.Reasons.{
  closure_objects, binding_reasons, card_reasons, dimension,
}
use domain_eval_weave.Domain.Readiness.Report.{
  ReadinessInput, DomainTruthReadiness, build_domain_truth_readiness, closure_of_request,
  bind_requirement, overall_of, finish_report, report_fits, report_issues,
  parse_domain_truth_readiness,
}
use domain_eval_weave.Tests.{digest, platform, is_ok, the_value, the_value-ok}

abbrev host : Host
host = record { platform = platform; locale_leb = text_leb }

abbrev pointer : DomainPackPointer
pointer = record { ref = "domain/contract.json"; sha256 = digest }

abbrev source : DomainSourceRef
source = record {
  source_id = "owner";
  kind = owner_statement;
  artifact_ref = "sources/owner.md";
  digest = digest;
  locator = none;
}

abbrev claim_named : String → List ContractClaimRef → ProductDomainClaim
claim_named id dependencies = record {
  claim_id = id;
  domain_id = "orders";
  statement = "The total is the sum of the lines";
  applicability = "every order";
  evidence_card = pointer;
  authority_refs = source ∷ [];
  observation_refs = [];
  false_accept_risk = high;
  false_reject_risk = low;
  dependencies = dependencies;
  lifecycle = active;
  transition = none;
}

abbrev line_ref : ContractClaimRef
line_ref = record { claim_id = "line"; contract_version = 1 }

abbrev contract : ProductDomainContract
contract = record {
  contract_id = "orders";
  product_id = "shop";
  version = 1;
  predecessor = none;
  source_interview = pointer;
  source_snapshot_digest = digest;
  claims = claim_named "total" (line_ref ∷ []) ∷ claim_named "line" [] ∷ [];
  confirmation = record { confirmation_id = "ok"; sha256 = digest };
  decided_by = "ana";
  decided_at = "2026-01-01T00:00:00.000Z";
}

abbrev proposal : ProposedClaim
proposal = record {
  claim_id = "line-tax";
  domain_id = "orders";
  statement = "A line carries its tax";
  applicability = "every order";
  source_ref_ids = "owner" ∷ [];
}

abbrev effects : RequirementEffects
effects = record {
  uses = record { claim_id = "total"; contract_version = 1 } ∷ [];
  preserves = [];
  introduces = [];
  modifies = record { claim = line_ref; proposed = proposal; reason = "tax" } ∷ [];
  deprecates = [];
  conflicts_with = [];
}

abbrev checkout : RequirementChangeSet
checkout = record {
  requirement_id = "checkout";
  version = 1;
  predecessor = none;
  product_id = "shop";
  requirement_refs = source ∷ [];
  base_contract = pointer;
  effects = effects;
  decision_question_refs = [];
  status = owner_confirmed;
  confirmation = some (record { confirmation_id = "ok"; sha256 = digest });
}

abbrev inputs : List RequirementInput
inputs = record { ref = "requirements/checkout.json"; requirement = checkout } ∷ []

abbrev graph_result : Result ClaimDependencyGraph
graph_result = build_claim_dependency_graph host "domain/contract.json" contract inputs

graph_is_ok :
    is_ok (build_claim_dependency_graph host "domain/contract.json" contract inputs) ≡ true
unfolding build_claim_dependency_graph parse_product_domain_contract collect_parts
    canonical_json_digest canonical_json contract_json text_leb parse_pointer starts_with has_part
    split sha256_matches parse_requirement_change_set add_requirements requirement_edges
    contract_part claim_node_id template sort sort_by all_codes codes_count decimal join take visit
    visit_all graph_edge_json index_json node_json requirement_json
    assert_claim_dependency_graph_semantics assert_no_dependency_cycle assert_claim_ref finish_graph
    build_reverse_index dependency_adjacency edge_key proposal_node_id requirement_node_id
    sort_edges sort_nodes contract_issues graph_issues is_package_relative graph_fits
    node_id_matches id_matches drop parse_claim_dependency_graph requirement_issues quote serialize
graph_is_ok = refl

abbrev graph : ClaimDependencyGraph
graph = the_value graph_result graph_is_ok

build_claim_dependency_graph-IsClaimGraph_example : IsClaimGraph host graph
build_claim_dependency_graph-IsClaimGraph_example =
    build_claim_dependency_graph-IsClaimGraph host "domain/contract.json" contract inputs graph
      (the_value-ok graph_result graph_is_ok)

start_of_line : start_node graph.nodes "line" ≡ ok "claim:1:line"
unfolding start_node build_claim_dependency_graph parse_product_domain_contract collect_parts
    canonical_json_digest canonical_json contract_json text_leb parse_pointer starts_with has_part
    split sha256_matches parse_requirement_change_set add_requirements requirement_edges
    contract_part claim_node_id template sort sort_by all_codes codes_count decimal join take visit
    visit_all graph_edge_json index_json node_json requirement_json
    assert_claim_dependency_graph_semantics assert_no_dependency_cycle assert_claim_ref finish_graph
    build_reverse_index dependency_adjacency edge_key proposal_node_id requirement_node_id
    sort_edges sort_nodes contract_issues graph_issues is_package_relative graph_fits
    node_id_matches id_matches drop parse_claim_dependency_graph requirement_issues quote serialize
start_of_line = refl

impacted_by_claim-build_example :
    (impact : ClaimImpact) × (impacted_by_claim host graph "line" ≡ ok impact)
    × ((kind : NodeKind) (x : String)
        → kind ≢ historical_claim
        → (includes x (objects kind impact) ≡ true) ↔ IsAffected graph "claim:1:line" kind x)
impacted_by_claim-build_example =
    impacted_by_claim-build host "domain/contract.json" contract inputs graph "line" "claim:1:line"
      (the_value-ok graph_result graph_is_ok) start_of_line

abbrev node_named : String → GraphNode
node_named id = record {
  node_id = id;
  kind = contract_claim;
  object_id = id;
  object_version = 1;
  domain_id = none;
}

abbrev link : String → String → GraphEdge
link from to = record { from = from; to = to; kind = depends_on }

assert_no_dependency_cycle_decides_example :
    ((assert_no_dependency_cycle
          (node_named "a" ∷ node_named "b" ∷ [])
          (link "a" "b" ∷ link "b" "a" ∷ [])
        ≡ ok tt)
      × ((v : String)
          → ¬ DependsOn
              (node_named "a" ∷ node_named "b" ∷ [])
              (link "a" "b" ∷ link "b" "a" ∷ [])
              v
              v))
    ⊎ ((v : String) × (assert_no_dependency_cycle
            (node_named "a" ∷ node_named "b" ∷ [])
            (link "a" "b" ∷ link "b" "a" ∷ [])
          ≡ err (cycle_error v))
        × DependsOn (node_named "a" ∷ node_named "b" ∷ []) (link "a" "b" ∷ link "b" "a" ∷ []) v v)
assert_no_dependency_cycle_decides_example =
    assert_no_dependency_cycle_decides (node_named "a" ∷ node_named "b" ∷ [])
      (link "a" "b" ∷ link "b" "a" ∷ [])

abbrev small_index : Index
small_index = ("a", "b" ∷ []) ∷ ("b", "a" ∷ "c" ∷ []) ∷ []

search_decides_example :
    (found : List String) × (search small_index ("a" ∷ []) ≡ some found)
    × ((v : String) → (includes v found ≡ true) ↔ Reach small_index ("a" ∷ []) v)
search_decides_example = search_decides small_index ("a" ∷ [])

build_reverse_index_iff_example :
    (includes "a" (lookup (build_reverse_index host (link "a" "b" ∷ [])) "b") ≡ true)
    ↔ Any (λ (e : GraphEdge). (e.to ≡ "b") × (e.from ≡ "a")) (link "a" "b" ∷ [])
build_reverse_index_iff_example = build_reverse_index_iff host (link "a" "b" ∷ []) "b" "a"

abbrev asked : List Requested
asked = record { id = "checkout"; version = 1 } ∷ []

known_checkout : All (λ id. Any (λ n. n.node_id ≡ id) graph.nodes) (requested_ids asked)
unfolding build_claim_dependency_graph parse_product_domain_contract collect_parts
    canonical_json_digest canonical_json contract_json text_leb parse_pointer starts_with has_part
    split sha256_matches parse_requirement_change_set add_requirements requirement_edges
    contract_part claim_node_id template sort sort_by all_codes codes_count decimal join take visit
    visit_all graph_edge_json index_json node_json requirement_json
    assert_claim_dependency_graph_semantics assert_no_dependency_cycle assert_claim_ref finish_graph
    build_reverse_index dependency_adjacency edge_key proposal_node_id requirement_node_id
    sort_edges sort_nodes contract_issues graph_issues is_package_relative graph_fits
    node_id_matches id_matches drop parse_claim_dependency_graph requirement_issues quote serialize
known_checkout = (inr (inr (inr (inl refl))), tt)

requested_closure-Connected_example :
    (closure : List String) × (requested_closure graph asked ≡ ok closure)
    × ((v : String) → (includes v closure ≡ true) ↔ Connected graph (requested_ids asked) v)
requested_closure-Connected_example = requested_closure-Connected graph asked known_checkout

abbrev readiness_input : ReadinessInput
readiness_input = record {
  contract = pointer;
  requirements = inputs;
  graph_ref = "graph.json";
  graph = graph;
  evidence_cards = [];
  decision_questions = [];
  request_ref = "request.json";
  request = record {
    request_id = "ready";
    product_id = "shop";
    requirements = record { ref = "requirements/checkout.json"; sha256 = digest } ∷ [];
    requested_by = "ana";
    requested_at = "2026-01-01T00:00:00.000Z";
    source_ref = source;
  };
  generated_at = "2026-01-01T00:00:00.000Z";
}

abbrev report_result : Result DomainTruthReadiness
report_result = build_domain_truth_readiness host readiness_input

report_is_ok : is_ok report_result ≡ true
unfolding build_domain_truth_readiness closure_of_request bind_requirement requested_closure
    undirected_adjacency search explore closure_objects binding_reasons card_reasons dimension
    overall_of finish_report report_fits code_matches non_empty report_issues
    parse_domain_truth_readiness request_json graph_json build_claim_dependency_graph
    parse_product_domain_contract collect_parts canonical_json_digest canonical_json contract_json
    text_leb parse_pointer starts_with has_part split sha256_matches parse_requirement_change_set
    add_requirements requirement_edges contract_part claim_node_id template sort sort_by all_codes
    codes_count decimal join take visit visit_all graph_edge_json index_json node_json
    requirement_json assert_claim_dependency_graph_semantics assert_no_dependency_cycle
    assert_claim_ref finish_graph build_reverse_index dependency_adjacency edge_key proposal_node_id
    requirement_node_id sort_edges sort_nodes contract_issues graph_issues is_package_relative
    graph_fits node_id_matches id_matches drop parse_claim_dependency_graph requirement_issues quote
    serialize
report_is_ok = refl

abbrev report : DomainTruthReadiness
report = the_value report_result report_is_ok
