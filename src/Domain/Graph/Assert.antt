-- ===== src/Domain/Graph/Assert.antt =====
-- `assertNoDependencyCycle` and `assertClaimDependencyGraphSemantics` (src/domain/graph.ts).
pub mod Laws
use domain_eval_weave.Base.{String, Bool, true, false, not, List, [], ◌∷◌, map, ◌==◌, template}
use domain_eval_weave.Base.Result.{Failure, plain_error, Result, ok, err, require, ◌>>=◌, ◌>>◌}
use domain_eval_weave.Json.{canonical_json}
use domain_eval_weave.Domain.Cycle.{Outcome, visited, cycle, out_of_fuel, visit_all}
use domain_eval_weave.Domain.Contracts.{GraphNode, GraphEdge, ClaimDependencyGraph}
use domain_eval_weave.Domain.Encode.{index_json}
use domain_eval_weave.Domain.Graph.{Host, build_reverse_index, dependency_adjacency}

abbrev pub cycle_error : String → Failure
cycle_error node_id = plain_error (template ("Claim dependency cycle contains " ∷ node_id ∷ []))

abbrev pub fuel_error : Failure
fuel_error = plain_error "out of fuel"

abbrev outcome_result : Outcome → Result (Unit {0})
outcome_result (visited done) = ok tt
outcome_result (cycle node_id) = err (cycle_error node_id)
outcome_result out_of_fuel = err fuel_error

unfoldable pub assert_no_dependency_cycle : List GraphNode → List GraphEdge → Result (Unit {0})
unfolding visit_all
assert_no_dependency_cycle nodes edges =
    outcome_result (visit_all (dependency_adjacency nodes edges) (map (λ n. n.node_id) nodes))

abbrev pub index_error : Failure
index_error = plain_error "Claim graph reverse index does not match edges"

unfoldable pub assert_claim_dependency_graph_semantics :
    Host → ClaimDependencyGraph → Result (Unit {0})
assert_claim_dependency_graph_semantics host g =
    canonical_json (index_json (build_reverse_index host g.edges)) >>= λ expected.
    canonical_json (index_json g.reverse_index) >>= λ found.
    require (expected == found) index_error >> assert_no_dependency_cycle g.nodes g.edges
