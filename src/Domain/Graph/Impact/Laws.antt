-- ===== src/Domain/Graph/Impact/Laws.antt =====
-- The impact of a Claim is what leads to it along the edges (src/domain/graph.ts).
use domain_eval_weave.Base.{
  ◌≡◌, refl, sym, subst, ◌∙◌, String, true, false, Option, none, some, List, [], ◌∷◌, includes,
  includes-sort, Any, ◌↔◌, ◌⊎◌, inl, inr, arith, ◌≢◌, ◌==◌, eq_iff, eq_refl, Option-cases,
  Bool-cases,
}
use domain_eval_weave.Base.Result.{ok}
use domain_eval_weave.Domain.Index.{Index, lookup, includes-set_add}
use domain_eval_weave.Domain.Search.{search, Reach, start, step}
use domain_eval_weave.Domain.Search.Laws.{search_returns, search-Reach_iff}
use domain_eval_weave.Domain.Contracts.{
  GraphNode, GraphEdge, ClaimDependencyGraph, NodeKind, contract_claim, historical_claim,
  proposed_claim, requirement,
}
use domain_eval_weave.Domain.Graph.{Host, build_reverse_index}
use domain_eval_weave.Domain.Graph.Links.{build_reverse_index_iff}
use domain_eval_weave.Domain.Graph.Assert.{assert_claim_dependency_graph_semantics}
use domain_eval_weave.Domain.Graph.Impact.{
  ClaimImpact, by_id, note_node, note_nodes, no_impact, sorted_impact, start_node,
  impacted_by_claim,
}

abbrev Edge : String → String → GraphEdge → Type 0
Edge u v e = (e.to ≡ v) × (e.from ≡ u)

-- A chain of one or more edges of the graph, of any kind.
pub data Leads (edges : List GraphEdge) : String → String → Type 0 where
  one : {u v : String} → Any (λ (e : GraphEdge). (e.to ≡ v) × (e.from ≡ u)) edges → Leads edges u v
  more :
      {u v w : String}
      → Any (λ (e : GraphEdge). (e.to ≡ v) × (e.from ≡ u)) edges
      → Leads edges v w
      → Leads edges u w

module _ (host : Host) (edges : List GraphEdge) (target : String) where
  abbrev reverse : Index
  reverse = build_reverse_index host edges

  Leads-of_Reach : (v : String) → Reach reverse (lookup reverse target) v → Leads edges v target
  Leads-of_Reach v (start s) = one ((build_reverse_index_iff host edges target v).0 s)
  Leads-of_Reach v (step {u} r e) =
      more ((build_reverse_index_iff host edges u v).0 e) (Leads-of_Reach u r)

  Reach-of_Leads :
      (v w : String) → w ≡ target → Leads edges v w → Reach reverse (lookup reverse target) v
  Reach-of_Leads v w same (one e) =
      start
        ((build_reverse_index_iff host edges target v).1 (subst (λ t. Any (Edge v t) edges) same e))
  Reach-of_Leads v w same (more {v = u} e p) =
      step (Reach-of_Leads u w same p) ((build_reverse_index_iff host edges u v).1 e)

-- The list of an impact in which the objects of nodes of a kind stand.
abbrev pub objects : NodeKind → ClaimImpact → List String
objects contract_claim i = i.dependent_claim_ids
objects proposed_claim i = i.proposed_claim_ids
objects requirement i = i.requirement_ids
objects historical_claim i = []

abbrev Noted : NodeKind → String → Option GraphNode → Type 0
Noted kind x none = ⊥
Noted kind x (some n) = (kind ≢ historical_claim) × (n.kind ≡ kind) × (n.object_id ≡ x)

objects-note_node :
    (kind : NodeKind) (i : ClaimImpact) (o : Option GraphNode) (x : String)
    → (includes x (objects kind (note_node i o)) ≡ true)
      ↔ ((includes x (objects kind i) ≡ true) ⊎ Noted kind x o)
objects-note_node kind i none x = ((λ h. inl h), (λ h. ground arith))
objects-note_node contract_claim i (some n) x =
    ground (arith, includes-set_add x n.object_id i.dependent_claim_ids)
objects-note_node proposed_claim i (some n) x =
    ground (arith, includes-set_add x n.object_id i.proposed_claim_ids)
objects-note_node requirement i (some n) x =
    ground (arith, includes-set_add x n.object_id i.requirement_ids)
objects-note_node historical_claim i (some n) x = ground arith

objects-note_nodes :
    (nodes : List GraphNode) (kind : NodeKind) (ids : List String) (i : ClaimImpact) (x : String)
    → (includes x (objects kind (note_nodes nodes i ids)) ≡ true)
      ↔ ((includes x (objects kind i) ≡ true) ⊎ Any (λ id. Noted kind x (by_id nodes id)) ids)
objects-note_nodes nodes kind [] i x = ((λ h. inl h), (λ h. ground arith))
objects-note_nodes nodes kind (id ∷ ids) i x =
    let ih = objects-note_nodes nodes kind ids (note_node i (by_id nodes id)) x in
    let here = objects-note_node kind i (by_id nodes id) x in ground (arith, ih, here)

objects-sorted :
    (kind : NodeKind) (i : ClaimImpact) (x : String)
    → includes x (objects kind (sorted_impact i)) ≡ includes x (objects kind i)
objects-sorted contract_claim i x = includes-sort x i.dependent_claim_ids
objects-sorted proposed_claim i x = includes-sort x i.proposed_claim_ids
objects-sorted requirement i x = includes-sort x i.requirement_ids
objects-sorted historical_claim i x = refl

objects-none : (kind : NodeKind) (x : String) → includes x (objects kind no_impact) ≡ false
objects-none contract_claim x = refl
objects-none proposed_claim x = refl
objects-none requirement x = refl
objects-none historical_claim x = refl

Any-witness :
    (P : String → Type 0) (xs : List String)
    → Any P xs ↔ ((x : String) × (includes x xs ≡ true) × P x)
Any-witness P [] = ((λ a. absurd a), (λ (x, m, p). cc))
Any-witness P (y ∷ ys) =
    let ih = Any-witness P ys in
    (
      (λ a. elim a [
        | inl p ↦ (y, ground (arith, eq_refl y), p)
        | inr later ↦ let (x, m, p) = ih.0 later in (x, ground arith, p)
      ]),
      (λ (x, m, p). elim (Bool-cases (y == x)) [
        | inl e ↦ inl (subst P (sym ((eq_iff y x).0 e)) p)
        | inr e ↦ inr (ih.1 (x, rw e at m, p))
      ]),
    )

-- A node of the graph of some kind and object, from which a chain of edges leads to a target.
pub record IsAffected (g : ClaimDependencyGraph) (target : String) (kind : NodeKind) (x : String)
    : Type 0 where
  pub node_id : String
  pub node : GraphNode
  pub found : by_id g.nodes node_id ≡ some node
  pub same_kind : node.kind ≡ kind
  pub object : node.object_id ≡ x
  pub leads : Leads g.edges node_id target

module _ (host : Host) (g : ClaimDependencyGraph) (target : String) (kind : NodeKind)
    (x : String) where
  Noted-of_IsAffected :
      (a : IsAffected g target kind x)
      → kind ≢ historical_claim
      → Noted kind x (by_id g.nodes a.node_id)
  Noted-of_IsAffected a h = rw a.found (h, a.same_kind, a.object)

  IsAffected-of_Noted :
      (id : String)
      → Noted kind x (by_id g.nodes id)
      → Leads g.edges id target
      → IsAffected g target kind x
  IsAffected-of_Noted id noted p = elim (Option-cases (by_id g.nodes id)) [
    | inl e ↦ absurd (rw e at noted)
    | inr (n, e) ↦
        let (h, same_kind, object) : Noted kind x (some n) = rw e at noted in
        record {
          node_id = id;
          node = n;
          found = e;
          same_kind = same_kind;
          object = object;
          leads = p;
        }
  ]

  noted-IsAffected_iff :
      (seen : List String)
      → kind ≢ historical_claim
      → search (build_reverse_index host g.edges) (lookup (build_reverse_index host g.edges) target)
        ≡ some seen
      → (includes x (objects kind (sorted_impact (note_nodes g.nodes no_impact seen))) ≡ true)
        ↔ IsAffected g target kind x
  noted-IsAffected_iff seen current h =
      let index = build_reverse_index host g.edges in
      let starts = lookup index target in
      let noted = objects-note_nodes g.nodes kind seen no_impact x in
      let sorted = objects-sorted kind (note_nodes g.nodes no_impact seen) x in
      let empty = objects-none kind x in
      let any = Any-witness (λ id. Noted kind x (by_id g.nodes id)) seen in
      (
        (λ m.
            let (id, found, n) = any.0 (ground (arith, noted, sorted, empty)) in
            IsAffected-of_Noted id n (
              Leads-of_Reach host g.edges target id
                ((search-Reach_iff index starts seen id h).0 found))),
        (λ a.
            let found =
              (search-Reach_iff index starts seen a.node_id h).1
                (Reach-of_Leads host g.edges target a.node_id target refl a.leads) in
            let noted_at = any.1 (a.node_id, found, Noted-of_IsAffected a current) in
            sorted ∙ noted.1 (inr noted_at)),
      )

-- For a graph whose reverse index is the one built from its edges, that passes its assertion, and a
-- Claim with a node, the call returns, and each of its three lists holds exactly the objects
-- of the nodes of its kind from which a chain of one or more edges leads to the node of the Claim.
pub impacted_by_claim-IsAffected :
    (host : Host) (g : ClaimDependencyGraph) (claim_id target : String)
    → g.reverse_index ≡ build_reverse_index host g.edges
    → assert_claim_dependency_graph_semantics host g ≡ ok tt
    → start_node g.nodes claim_id ≡ ok target
    → (impact : ClaimImpact) × (impacted_by_claim host g claim_id ≡ ok impact)
      × ((kind : NodeKind) (x : String)
          → kind ≢ historical_claim
          → (includes x (objects kind impact) ≡ true) ↔ IsAffected g target kind x)
unfolding impacted_by_claim
impacted_by_claim-IsAffected host g claim_id target built sound starts =
    let index = build_reverse_index host g.edges in
    let (seen, ends) = search_returns index (lookup index target) in
    (
      sorted_impact (note_nodes g.nodes no_impact seen),
      rw (sound, starts, built, ends) refl,
      λ kind x current. noted-IsAffected_iff host g target kind x seen current ends,
    )
