-- ===== src/Domain/Graph.antt =====
-- Nodes, edges and the indexes over them (src/domain/graph.ts).
pub mod Links
pub mod Assert
pub mod Contribution
pub mod Build
pub mod Impact
use domain_eval_weave.Base.{
  ℕ, String, Bool, true, false, List, [], ◌∷◌, ◌++◌, map, ◌==◌, if◌then◌else◌, template, decimal,
  sort, sort_by,
}
use domain_eval_weave.Platform.{Platform}
use domain_eval_weave.Domain.Index.{Index, set_add, update_at}
use domain_eval_weave.Domain.Contracts.{GraphNode, GraphEdge, EdgeKind, depends_on}
use domain_eval_weave.Domain.Encode.{edge_kind_text}

-- What the graph takes from its host: SHA-256, and `left.localeCompare(right) <= 0`.
pub record Host : Type 0 where
  pub platform : Platform
  pub locale_leb : String → String → Bool

unfoldable pub claim_node_id : ℕ → String → String
claim_node_id version claim_id = template ("claim:" ∷ decimal version ∷ ":" ∷ claim_id ∷ [])

unfoldable pub requirement_node_id : ℕ → String → String
requirement_node_id version requirement_id =
    template ("requirement:" ∷ decimal version ∷ ":" ∷ requirement_id ∷ [])

unfoldable pub proposal_node_id : ℕ → String → String → String
proposal_node_id version requirement_id claim_id =
    template ("proposal:" ∷ decimal version ∷ ":" ∷ requirement_id ∷ ":" ∷ claim_id ∷ [])

unfoldable pub edge_key : GraphEdge → String
edge_key e = template (e.from ∷ "\0" ∷ e.to ∷ "\0" ∷ edge_kind_text e.kind ∷ [])

unfoldable pub sort_nodes : Host → List GraphNode → List GraphNode
sort_nodes host nodes = sort_by (λ m n. host.locale_leb m.node_id n.node_id) nodes

unfoldable pub sort_edges : Host → List GraphEdge → List GraphEdge
unfolding edge_key
sort_edges host edges = sort_by (λ d e. host.locale_leb (edge_key d) (edge_key e)) edges

-- `const sources = reverse.get(target) ?? new Set(); sources.add(source); reverse.set(target, sources)`
abbrev pub add_source : Index → String → String → Index
add_source [] target source = (target, source ∷ []) ∷ []
add_source ((key, sources) ∷ rest) target source =
    let later = add_source rest target source in
    if key == target then (key, set_add sources source) ∷ rest else (key, sources) ∷ later

abbrev pub add_sources : Index → List GraphEdge → Index
add_sources reverse [] = reverse
add_sources reverse (e ∷ es) = add_sources (add_source reverse e.to e.from) es

abbrev pub sorted_entry : String × List String → String × List String
sorted_entry (target, sources) = (target, sort sources)

abbrev pub entry_leb : Host → String × List String → String × List String → Bool
entry_leb host (j, v) (k, w) = host.locale_leb j k

unfoldable pub build_reverse_index : Host → List GraphEdge → Index
build_reverse_index host edges = map sorted_entry (sort_by (entry_leb host) (add_sources [] edges))

abbrev pub is_depends_on : EdgeKind → Bool
is_depends_on depends_on = true
is_depends_on _ = false

-- `if (edge.kind === "depends_on") adjacency.get(edge.from)?.push(edge.to)`
abbrev pub push_edges : Index → List GraphEdge → Index
push_edges adjacency [] = adjacency
push_edges adjacency (e ∷ es) =
    push_edges
      (if is_depends_on e.kind
        then update_at (λ targets. targets ++ (e.to ∷ [])) e.from adjacency
        else adjacency)
      es

-- `for (const node of nodes) adjacency.set(node.node_id, [])`
abbrev pub no_links : List String → Index
no_links node_ids = map (λ id. (id, [])) node_ids

unfoldable pub dependency_adjacency : List GraphNode → List GraphEdge → Index
dependency_adjacency nodes edges = push_edges (no_links (map (λ n. n.node_id) nodes)) edges
