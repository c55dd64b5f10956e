-- ===== src/Domain/Graph/Build/Laws.antt =====
-- What a built graph satisfies (src/domain/graph.ts).
use domain_eval_weave.Base.{
  ◌≡◌, refl, ◌∙◌, subst, String, true, List, map, ◌==◌, is_unique, All, inl, inr, arith,
}
use domain_eval_weave.Base.Result.{ok, require, map_results, ◌>>◌, >>=-eq-ok, ok-inj}
use domain_eval_weave.Platform.{canonical_json_digest}
use domain_eval_weave.Domain.Contracts.{
  DomainPackPointer, ProductDomainContract, ClaimDependencyGraph,
}
use domain_eval_weave.Json.{canonical_json}
use domain_eval_weave.Domain.Encode.{index_json}
use domain_eval_weave.Domain.Schema.{parse_product_domain_contract, parse_claim_dependency_graph}
use domain_eval_weave.Domain.Schema.Laws.{HasEnds, parse_claim_dependency_graph-ok}
use domain_eval_weave.Domain.Graph.{Host, build_reverse_index}
use domain_eval_weave.Domain.Graph.Assert.{
  assert_no_dependency_cycle, assert_claim_dependency_graph_semantics, index_error,
}
use domain_eval_weave.Domain.Graph.Assert.Laws.{DependsOn, assert_no_dependency_cycle_decides}
use domain_eval_weave.Domain.Graph.Build.{
  RequirementInput, collect_parts, requirement_pointer, graph_of, graph_key, finish_graph,
  build_claim_dependency_graph,
}
use domain_eval_weave.Domain.Graph.Contribution.{Contribution}

-- What a claim graph promises its users.
pub record IsClaimGraph (host : Host) (g : ClaimDependencyGraph) : Type 0 where
  pub unique : is_unique (map (λ n. n.node_id) g.nodes) ≡ true
  pub ends : All (HasEnds g.nodes) g.edges
  pub index : g.reverse_index ≡ build_reverse_index host g.edges
  pub asserted : assert_claim_dependency_graph_semantics host g ≡ ok tt
  pub acyclic : (v : String) → ¬ DependsOn g.nodes g.edges v v

asserted-acyclic :
    (host : Host) (g : ClaimDependencyGraph)
    → assert_claim_dependency_graph_semantics host g ≡ ok tt
    → (v : String) → ¬ DependsOn g.nodes g.edges v v
unfolding assert_claim_dependency_graph_semantics
asserted-acyclic host g h =
    let (expected, _, h₁) =
      >>=-eq-ok (canonical_json (index_json (build_reverse_index host g.edges))) _ h in
    let (found, _, h₂) = >>=-eq-ok (canonical_json (index_json g.reverse_index)) _ h₁ in
    let (_, _, acyclic) = >>=-eq-ok (require (expected == found) index_error) _ h₂ in
    elim (assert_no_dependency_cycle_decides g.nodes g.edges) [
      | inl (_, none_closed) ↦ none_closed
      | inr (v, thrown, _) ↦ absurd (ground arith)
    ]

finish_graph-IsClaimGraph :
    (host : Host) (contract : ProductDomainContract) (pointer : DomainPackPointer)
    (requirements : List DomainPackPointer) (sorted : Contribution) (g : ClaimDependencyGraph)
    → finish_graph host contract pointer requirements sorted ≡ ok g
    → IsClaimGraph host g
unfolding finish_graph
finish_graph-IsClaimGraph host contract pointer requirements sorted g h =
    let (digest, _, h₁) =
      >>=-eq-ok (canonical_json_digest host.platform (graph_key pointer requirements sorted)) _ h in
    let made : ClaimDependencyGraph = graph_of host contract pointer requirements sorted digest in
    let (graph, accepted, h₂) = >>=-eq-ok (parse_claim_dependency_graph made) _ h₁ in
    let (_, asserted, h₃) = >>=-eq-ok (assert_claim_dependency_graph_semantics host graph) _ h₂ in
    let (same, unique, ends) = parse_claim_dependency_graph-ok made graph accepted in
    let asserted_here : assert_claim_dependency_graph_semantics host made ≡ ok tt =
      rw same asserted in
    let here : IsClaimGraph host made = record {
      unique = unique;
      ends = ends;
      index = refl;
      asserted = asserted_here;
      acyclic = asserted-acyclic host made asserted_here;
    } in
    subst (IsClaimGraph host) (same ∙ ok-inj graph g h₃) here

-- A graph that is built has distinct node ids, edges between its nodes, the reverse index of its edges and no chain
-- of dependencies from a node back to it, and passes its own assertion.
pub build_claim_dependency_graph-IsClaimGraph :
    (host : Host) (ref : String) (contract : ProductDomainContract) (inputs : List RequirementInput)
    (g : ClaimDependencyGraph)
    → build_claim_dependency_graph host ref contract inputs ≡ ok g
    → IsClaimGraph host g
unfolding build_claim_dependency_graph
build_claim_dependency_graph-IsClaimGraph host ref contract inputs g h =
    let (parsed, _, h₁) = >>=-eq-ok (parse_product_domain_contract contract) _ h in
    let (collected, _, h₂) = >>=-eq-ok (collect_parts host ref parsed inputs) _ h₁ in
    let parts : Contribution = collected.1 in
    let (pointers, _, h₃) =
      >>=-eq-ok
        (assert_no_dependency_cycle parts.nodes parts.edges
          >> map_results (requirement_pointer host) inputs)
        _ h₂ in
    finish_graph-IsClaimGraph host parsed collected.0 _ _ g h₃
