-- ===== src/Domain/Graph/Impact.antt =====
-- `impactedByClaim` (src/domain/graph.ts).
pub mod Laws
pub mod Built
use domain_eval_weave.Base.{
  String, Bool, true, false, ◌&&◌, Option, none, some, List, [], ◌∷◌, ◌==◌, find, map_get, sort,
  template,
}
use domain_eval_weave.Base.Result.{
  Failure, plain_error, Result, ok, err, or_throw, require, ◌>>=◌, ◌>>◌,
}
use domain_eval_weave.Domain.Index.{lookup, set_add}
use domain_eval_weave.Domain.Search.{search}
use domain_eval_weave.Domain.Contracts.{
  NodeKind, contract_claim, historical_claim, proposed_claim, requirement, GraphNode,
  ClaimDependencyGraph,
}
use domain_eval_weave.Domain.Graph.{Host}
use domain_eval_weave.Domain.Graph.Assert.{assert_claim_dependency_graph_semantics, fuel_error}

pub record ClaimImpact : Type 0 where
  pub dependent_claim_ids : List String
  pub proposed_claim_ids : List String
  pub requirement_ids : List String

abbrev pub is_contract_claim : NodeKind → Bool
is_contract_claim contract_claim = true
is_contract_claim _ = false

-- `byId.get(nodeId)`
abbrev pub by_id : List GraphNode → String → Option GraphNode
by_id nodes id = map_get (λ n. n.node_id) id nodes

-- The object of a node joins the set of its kind.
abbrev pub note_node : ClaimImpact → Option GraphNode → ClaimImpact
note_node impact none = impact
note_node impact (some node) = elim node.kind [
  | contract_claim ↦ record impact {
    dependent_claim_ids = set_add impact.dependent_claim_ids node.object_id;
  }
  | proposed_claim ↦ record impact {
    proposed_claim_ids = set_add impact.proposed_claim_ids node.object_id;
  }
  | requirement ↦ record impact { requirement_ids = set_add impact.requirement_ids node.object_id }
  | historical_claim ↦ impact
]

abbrev pub note_nodes : List GraphNode → ClaimImpact → List String → ClaimImpact
note_nodes nodes impact [] = impact
note_nodes nodes impact (id ∷ ids) = note_nodes nodes (note_node impact (by_id nodes id)) ids

abbrev pub no_impact : ClaimImpact
no_impact = record { dependent_claim_ids = []; proposed_claim_ids = []; requirement_ids = [] }

abbrev pub sorted_impact : ClaimImpact → ClaimImpact
sorted_impact i = record {
  dependent_claim_ids = sort i.dependent_claim_ids;
  proposed_claim_ids = sort i.proposed_claim_ids;
  requirement_ids = sort i.requirement_ids;
}

abbrev pub unknown_claim : String → Failure
unknown_claim claim_id = plain_error (template ("unknown Contract Claim " ∷ claim_id ∷ []))

abbrev pub is_kind_claim : Option GraphNode → Bool
is_kind_claim none = false
is_kind_claim (some node) = is_contract_claim node.kind

-- The node from which the impact of a Claim is followed.
unfoldable pub start_node : List GraphNode → String → Result String
start_node nodes claim_id = do
  node ←
      or_throw (find (λ n. is_contract_claim n.kind && (n.object_id == claim_id)) nodes)
        (unknown_claim claim_id)
  require (is_kind_claim (by_id nodes node.node_id)) (unknown_claim claim_id) >> ok node.node_id

unfoldable pub impacted_by_claim : Host → ClaimDependencyGraph → String → Result ClaimImpact
impacted_by_claim host g claim_id =
    assert_claim_dependency_graph_semantics host g >> start_node g.nodes claim_id >>= λ start.
    or_throw (search g.reverse_index (lookup g.reverse_index start)) fuel_error >>= λ seen.
    ok (sorted_impact (note_nodes g.nodes no_impact seen))
