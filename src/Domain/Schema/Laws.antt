-- ===== src/Domain/Schema/Laws.antt =====
-- What a document without issues satisfies (src/domain/contracts.ts).
use domain_eval_weave.Base.{
  ◌≡◌, refl, String, Bool, true, false, ◌||◌, not, List, [], ◌∷◌, ◌++◌, map, includes,
  includes-map_iff, is_unique, Any, All, flat_map, arith,
}
use domain_eval_weave.Base.Result.{ok, require, schema_error, >>=-eq-ok}
use domain_eval_weave.Domain.Contracts.{GraphNode, GraphEdge, ClaimDependencyGraph}
use domain_eval_weave.Domain.Schema.{
  accepted_unless, issue_if, node_issues, edge_issues, index_issues, graph_issues, graph_fits,
  parse_claim_dependency_graph,
}

pub accepted_unless-ok {ℓ} :
    {A : Type ℓ} (issues : List String) (a b : A)
    → accepted_unless issues a ≡ ok b
    → (issues ≡ []) × (a ≡ b)
accepted_unless-ok [] a b h = (refl, cc)
accepted_unless-ok (m ∷ more) a b h = cc

pub append-nil_parts : (xs ys : List String) → xs ++ ys ≡ [] → (xs ≡ []) × (ys ≡ [])
append-nil_parts [] ys h = (refl, h)
append-nil_parts (x ∷ xs) ys h = cc

pub flat_map-nil :
    {A : Type 0} (f : A → List String) (P : A → Type 0) (xs : List A)
    → ((x : A) → f x ≡ [] → P x)
    → flat_map f xs ≡ []
    → All P xs
flat_map-nil f P [] h e = tt
flat_map-nil f P (x ∷ xs) h e =
    let (here, later) = append-nil_parts (f x) (flat_map f xs) e in
    (h x here, flat_map-nil f P xs h later)

issue_if-nil : (test : Bool) (message : String) → issue_if test message ≡ [] → test ≡ false
issue_if-nil test message h = ground arith

-- Both ends of an edge are nodes.
abbrev pub HasEnds : List GraphNode → GraphEdge → Type 0
HasEnds nodes e = Any (λ n. n.node_id ≡ e.from) nodes × Any (λ n. n.node_id ≡ e.to) nodes

pub parse_claim_dependency_graph-ok :
    (g h : ClaimDependencyGraph)
    → parse_claim_dependency_graph g ≡ ok h
    → (g ≡ h) × (is_unique (map (λ n. n.node_id) g.nodes) ≡ true) × All (HasEnds g.nodes) g.edges
unfolding parse_claim_dependency_graph graph_issues
parse_claim_dependency_graph-ok g h e₀ =
    let (_, _, e) =
      >>=-eq-ok (require (graph_fits g) (schema_error "invalid claim dependency graph")) _ e₀ in
    let ids : List String = map (λ n. n.node_id) g.nodes in
    let (none, same) = accepted_unless-ok (graph_issues g) g h e in
    let (first, index) =
      append-nil_parts (node_issues ids ++ flat_map (edge_issues ids) g.edges)
        (index_issues ids g.reverse_index) none in
    let (distinct, ends) =
      append-nil_parts (node_issues ids) (flat_map (edge_issues ids) g.edges) first in
    let unique = issue_if-nil (not (is_unique ids)) "node ids must be unique" distinct in
    (
      same,
      ground (arith, unique),
      flat_map-nil (edge_issues ids) (HasEnds g.nodes) g.edges
          (λ edge clean.
            let missing =
              issue_if-nil (not (includes edge.from ids) || not (includes edge.to ids))
                "edge endpoints must exist" clean in
            (
              (includes-map_iff (λ (n : GraphNode). n.node_id) edge.from g.nodes).0
                  (ground (arith, missing)),
              (includes-map_iff (λ (n : GraphNode). n.node_id) edge.to g.nodes).0
                  (ground (arith, missing)),
            ))
          ends,
    )
