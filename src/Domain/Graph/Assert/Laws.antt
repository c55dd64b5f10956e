-- ===== src/Domain/Graph/Assert/Laws.antt =====
-- When the assertions on a claim graph pass (src/domain/graph.ts).
use domain_eval_weave.Base.{
  ◌≡◌, refl, String, true, List, map, includes, includes-map_iff, Any, ◌↔◌, ◌⊎◌, inl, inr, arith,
}
use domain_eval_weave.Base.Result.{ok, err}
use domain_eval_weave.Domain.Cycle.{Walk, edge, via}
use domain_eval_weave.Domain.Cycle.Laws.{acyclic, cyclic, visit_all_decides}
use domain_eval_weave.Domain.Index.{lookup}
use domain_eval_weave.Domain.Contracts.{GraphNode, GraphEdge}
use domain_eval_weave.Domain.Graph.{dependency_adjacency}
use domain_eval_weave.Domain.Graph.Links.{DependsEdge, dependency_adjacency_iff}
use domain_eval_weave.Domain.Graph.Assert.{cycle_error, assert_no_dependency_cycle}

-- A chain of one or more dependency edges, each from a node of the graph.
pub data DependsOn (nodes : List GraphNode) (edges : List GraphEdge)
    : String → String → Type 0 where
  direct :
      {u v : String}
      → Any (λ n. n.node_id ≡ u) nodes
      → Any (DependsEdge u v) edges
      → DependsOn nodes edges u v
  through :
      {u v w : String}
      → Any (λ n. n.node_id ≡ u) nodes
      → Any (DependsEdge u v) edges
      → DependsOn nodes edges v w
      → DependsOn nodes edges u w

module _ (nodes : List GraphNode) (edges : List GraphEdge) where
  step_iff :
      (u v : String)
      → (includes v (lookup (dependency_adjacency nodes edges) u) ≡ true)
        ↔ (Any (λ n. n.node_id ≡ u) nodes × Any (DependsEdge u v) edges)
  step_iff u v = ground (
    arith,
    dependency_adjacency_iff nodes edges u v,
    includes-map_iff (λ (n : GraphNode). n.node_id) u nodes,
  )

  DependsOn-of_Walk :
      (u v : String) → Walk (dependency_adjacency nodes edges) u v → DependsOn nodes edges u v
  DependsOn-of_Walk u v (edge e) = let (n, d) = (step_iff u v).0 e in direct n d
  DependsOn-of_Walk u v (via {v = w} e p) =
      let (n, d) = (step_iff u w).0 e in through n d (DependsOn-of_Walk w v p)

  Walk-of_DependsOn :
      (u v : String) → DependsOn nodes edges u v → Walk (dependency_adjacency nodes edges) u v
  Walk-of_DependsOn u v (direct n d) = edge ((step_iff u v).1 (n, d))
  Walk-of_DependsOn u v (through {v = w} n d p) =
      via ((step_iff u w).1 (n, d)) (Walk-of_DependsOn w v p)

first_node :
    {nodes : List GraphNode} {edges : List GraphEdge} (u v : String)
    → DependsOn nodes edges u v
    → Any (λ n. n.node_id ≡ u) nodes
first_node u v (direct n d) = n
first_node u v (through n d p) = n

-- The assertion on dependencies returns where no chain of dependencies leads from a node of the graph back to it,
-- and otherwise throws an error that names a node from which a chain leads back to it.
pub assert_no_dependency_cycle_decides :
    (nodes : List GraphNode) (edges : List GraphEdge)
    → ((assert_no_dependency_cycle nodes edges ≡ ok tt)
        × ((v : String) → ¬ DependsOn nodes edges v v))
      ⊎ ((v : String) × (assert_no_dependency_cycle nodes edges ≡ err (cycle_error v))
          × DependsOn nodes edges v v)
unfolding assert_no_dependency_cycle
assert_no_dependency_cycle_decides nodes edges =
    elim (visit_all_decides (dependency_adjacency nodes edges) (map (λ n. n.node_id) nodes)) [
      | acyclic done e none_closed ↦ inl (
        rw e refl,
        λ v d.
            none_closed v
              ((includes-map_iff (λ (n : GraphNode). n.node_id) v nodes).1 (first_node v v d))
              (Walk-of_DependsOn nodes edges v v d),
      )
      | cyclic c e w ↦ inr (c, rw e refl, DependsOn-of_Walk nodes edges c c w)
    ]
