-- ===== src/Domain/Readiness/Closure.antt =====
-- `requestedClosure` (src/domain/readiness.ts): what is connected to the requested requirements.
pub mod Laws
use domain_eval_weave.Base.{ℕ, String, true, false, List, [], ◌∷◌, map, includes, sort}
use domain_eval_weave.Base.Text.{template}
use domain_eval_weave.Base.Result.{
  Failure, plain_error, Result, ok, err, require, for_each, or_throw, ◌>>=◌, ◌>>◌,
}
use domain_eval_weave.Domain.Index.{Index, update_at, set_add}
use domain_eval_weave.Domain.Search.{search}
use domain_eval_weave.Domain.Contracts.{GraphNode, GraphEdge, ClaimDependencyGraph}
use domain_eval_weave.Domain.Graph.{no_links, requirement_node_id}
use domain_eval_weave.Domain.Graph.Assert.{fuel_error}

-- The id and version of a requested requirement.
pub record Requested : Type 0 where
  pub id : String
  pub version : ℕ

-- `adjacency.get(from)?.add(to)` and `adjacency.get(to)?.add(from)` for each edge.
abbrev pub add_links : Index → List GraphEdge → Index
add_links adjacency [] = adjacency
add_links adjacency (e ∷ es) =
    add_links
      (update_at (λ targets. set_add targets e.from) e.to
        (update_at (λ targets. set_add targets e.to) e.from adjacency))
      es

unfoldable pub undirected_adjacency : List GraphNode → List GraphEdge → Index
undirected_adjacency nodes edges = add_links (no_links (map (λ n. n.node_id) nodes)) edges

abbrev pub unknown_node : String → Failure
unknown_node id = plain_error (template ("readiness request references unknown " ∷ id ∷ []))

abbrev pub requested_ids : List Requested → List String
requested_ids requested = map (λ r. requirement_node_id r.version r.id) requested

abbrev pub known_node : List GraphNode → String → Result (Unit {0})
known_node nodes id = require (includes id (map (λ n. n.node_id) nodes)) (unknown_node id)

unfoldable pub requested_closure : ClaimDependencyGraph → List Requested → Result (List String)
requested_closure g requested =
    for_each (known_node g.nodes) (requested_ids requested)
    >> or_throw (search (undirected_adjacency g.nodes g.edges) (requested_ids requested)) fuel_error
    >>= λ seen. ok (sort seen)
