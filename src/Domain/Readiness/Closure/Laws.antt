-- ===== src/Domain/Readiness/Closure/Laws.antt =====
-- The closure of a request is what edges in either direction connect to its requirements.
use domain_eval_weave.Base.{
  ◌≡◌, refl, ap, ◌∙◌, String, true, List, [], ◌∷◌, map, includes, includes-map_iff, includes-sort,
  sort, Any, All, ◌↔◌, ◌⊎◌, inl, arith,
}
use domain_eval_weave.Base.Result.{ok, require_iff, for_each-ok}
use domain_eval_weave.Domain.Index.{Index, lookup, update_at, set_add}
use domain_eval_weave.Domain.Search.{Reach, start, step}
use domain_eval_weave.Domain.Search.Laws.{search_returns, search-Reach_iff}
use domain_eval_weave.Domain.Contracts.{GraphNode, GraphEdge, ClaimDependencyGraph}
use domain_eval_weave.Domain.Graph.{no_links}
use domain_eval_weave.Domain.Graph.Links.{
  keys, keys-update_at, lookup-update_at, Adds-set_add, keys-no_links, lookup-no_links,
}
use domain_eval_weave.Domain.Readiness.Closure.{
  Requested, add_links, undirected_adjacency, requested_ids, unknown_node, known_node,
  requested_closure,
}

-- An edge between two nodes, in either direction.
abbrev pub Touches : String → String → GraphEdge → Type 0
Touches u v e = ((e.from ≡ u) × (e.to ≡ v)) ⊎ ((e.to ≡ u) × (e.from ≡ v))

add_links_iff :
    (index : Index) (edges : List GraphEdge) (u v : String)
    → (includes v (lookup (add_links index edges) u) ≡ true) ↔ (
        (includes v (lookup index u) ≡ true)
        ⊎ ((includes u (keys index) ≡ true) × Any (Touches u v) edges))
add_links_iff index [] u v = ((λ h. inl h), (λ h. ground arith))
add_links_iff index (e ∷ es) u v =
    let to : List String → List String = λ targets. set_add targets e.to in
    let back : List String → List String = λ targets. set_add targets e.from in
    let forward = update_at to e.from index in
    let ih = add_links_iff (update_at back e.to forward) es u v in
    let first = lookup-update_at to e.from e.to index u v (Adds-set_add e.to) in
    let second = lookup-update_at back e.to e.from forward u v (Adds-set_add e.from) in
    let same = ap (includes u) (keys-update_at to e.from index) in
    let same' = ap (includes u) (keys-update_at back e.to forward) in
    ground (arith, ih, first, second, same, same')

-- What edges connect to one of the requested requirements.
pub data Connected (g : ClaimDependencyGraph) (starts : List String) : String → Type 0 where
  at_start : {v : String} → includes v starts ≡ true → Connected g starts v
  linked :
      {u v : String}
      → Connected g starts u
      → Any (λ n. n.node_id ≡ u) g.nodes
      → Any (Touches u v) g.edges
      → Connected g starts v

module _ (g : ClaimDependencyGraph) (starts : List String) where
  link_iff :
      (u v : String)
      → (includes v (lookup (undirected_adjacency g.nodes g.edges) u) ≡ true)
        ↔ (Any (λ n. n.node_id ≡ u) g.nodes × Any (Touches u v) g.edges)
  unfolding undirected_adjacency
  link_iff u v =
      let ids : List String = map (λ n. n.node_id) g.nodes in
      let links = add_links_iff (no_links ids) g.edges u v in
      let empty = ap (includes v) (lookup-no_links ids u) in
      let same = ap (includes u) (keys-no_links ids) in
      ground (arith, links, empty, same, includes-map_iff (λ (n : GraphNode). n.node_id) u g.nodes)

  Connected-of_Reach :
      (v : String) → Reach (undirected_adjacency g.nodes g.edges) starts v → Connected g starts v
  Connected-of_Reach v (start m) = at_start m
  Connected-of_Reach v (step {u} r e) =
      let (n, t) = (link_iff u v).0 e in linked (Connected-of_Reach u r) n t

  Reach-of_Connected :
      (v : String) → Connected g starts v → Reach (undirected_adjacency g.nodes g.edges) starts v
  Reach-of_Connected v (at_start m) = start m
  Reach-of_Connected v (linked {u} c n t) = step (Reach-of_Connected u c) ((link_iff u v).1 (n, t))

-- Where every requested requirement is a node of the graph, the closure is returned, and it holds
-- exactly what edges, followed in both directions, connect to one of the requested requirements.
pub requested_closure-Connected :
    (g : ClaimDependencyGraph) (requested : List Requested)
    → All (λ id. Any (λ n. n.node_id ≡ id) g.nodes) (requested_ids requested)
    → (closure : List String) × (requested_closure g requested ≡ ok closure)
      × ((v : String) → (includes v closure ≡ true) ↔ Connected g (requested_ids requested) v)
unfolding requested_closure
requested_closure-Connected g requested h =
    let index = undirected_adjacency g.nodes g.edges in
    let starts = requested_ids requested in
    let (seen, ends) = search_returns index starts in
    let known =
      for_each-ok (known_node g.nodes) (λ id. Any (λ n. n.node_id ≡ id) g.nodes) starts
        (λ id. ground (
          arith,
          require_iff (includes id (map (λ n. n.node_id) g.nodes)) (unknown_node id),
          includes-map_iff (λ (n : GraphNode). n.node_id) id g.nodes,
        )) in
    (
      sort seen,
      rw (known.1 h, ends) refl,
      λ v.
          let found = search-Reach_iff index starts seen v ends in
          let sorted = includes-sort v seen in
          (
            (λ m. Connected-of_Reach g starts v (found.0 (ground arith))),
            (λ c. sorted ∙ found.1 (Reach-of_Connected g starts v c)),
          ),
    )
