-- ===== src/Domain/Graph/Links.antt =====
-- What the adjacency and the reverse index of a graph hold (src/domain/graph.ts).
use domain_eval_weave.Base.{
  ◌≡◌, refl, ap, ◌∙◌, String, true, false, ◌||◌, none, some, List, [], ◌∷◌, ◌++◌, map, ◌==◌, ◌↔◌,
  ◌⊎◌, ◌≢◌, inl, inr, arith, eq_iff, Bool-cases, Option-cases, includes, is_unique, Any, map_get,
  last_or, if◌then◌else◌, sort_by, includes-sort, Any-sort_by_iff, is_unique-sort_by, map_get-key,
  map_get-some_iff, includes-map_iff,
}
use domain_eval_weave.Domain.Index.{
  Index, lookup, entry_key, set_add, update_at, includes-append, includes-set_add,
}
use domain_eval_weave.Domain.Contracts.{GraphNode, GraphEdge, EdgeKind, depends_on}
use domain_eval_weave.Domain.Graph.{
  Host, add_source, add_sources, sorted_entry, entry_leb, build_reverse_index, is_depends_on,
  push_edges, no_links, dependency_adjacency,
}

-- A function that adds one element to a set.
abbrev pub Adds : (List String → List String) → String → Type 0
Adds f x =
    (v : String) (xs : List String)
    → (includes v (f xs) ≡ true) ↔ ((includes v xs ≡ true) ⊎ (x ≡ v))

abbrev pub keys : Index → List String
keys index = map entry_key index

pub keys-update_at :
    (f : List String → List String) (key : String) (index : Index)
    → map entry_key (update_at f key index) ≡ map entry_key index
keys-update_at f key [] = refl
keys-update_at f key ((k, values) ∷ rest) = elim (Bool-cases (k == key)) [
  | inl e ↦ rw (e, keys-update_at f key rest) refl
  | inr e ↦ rw (e, keys-update_at f key rest) refl
]

module _ (f : List String → List String) (key u : String) where
  update_at-none :
      (index : Index)
      → map_get entry_key u index ≡ none
      → map_get entry_key u (update_at f key index) ≡ none
  update_at-none [] h = refl
  update_at-none ((k, values) ∷ rest) h = elim (Option-cases (map_get entry_key u rest)) [
    | inl e ↦ ground (arith, update_at-none rest e)
    | inr (a, e) ↦ absurd (ground arith)
  ]

  update_at-some :
      (index : Index) (k : String) (values : List String)
      → map_get entry_key u index ≡ some (k, values)
      → map_get entry_key u (update_at f key index)
        ≡ some (if k == key then (k, f values) else (k, values))
  update_at-some [] k values h = cc
  update_at-some ((j, vs) ∷ rest) k values h = elim (Option-cases (map_get entry_key u rest)) [
    | inl e ↦ ground (arith, update_at-none rest e)
    | inr (a, e) ↦
        let same : a ≡ (k, values) = ground arith in
        rw (update_at-some rest k values (e ∙ ap some same), last_or) refl
  ]

no_entry :
    (index : Index) (u : String)
    → map_get entry_key u index ≡ none
    → includes u (keys index) ≡ false
no_entry index u h =
    ground (arith, map_get-some_iff entry_key u index, includes-map_iff entry_key u index)

has_entry :
    (index : Index) (u : String) (a : String × List String)
    → map_get entry_key u index ≡ some a
    → includes u (keys index) ≡ true
has_entry index u a h =
    ground (arith, map_get-some_iff entry_key u index, includes-map_iff entry_key u index)

-- An update adds a link at its key, where the index has that key.
pub lookup-update_at :
    (f : List String → List String) (key x : String) (index : Index) (u v : String)
    → Adds f x
    → (includes v (lookup (update_at f key index) u) ≡ true) ↔ (
        (includes v (lookup index u) ≡ true)
        ⊎ ((includes u (keys index) ≡ true) × (key ≡ u) × (x ≡ v)))
lookup-update_at f key x index u v adds = elim (Option-cases (map_get entry_key u index)) [
  | inl e ↦ ground (arith, update_at-none f key u index e, no_entry index u e)
  | inr ((k, values), e) ↦
      let at_u = map_get-key entry_key u index (k, values) e in
      ground (
        arith,
        update_at-some f key u index k values e,
        has_entry index u (k, values) e,
        eq_iff k key,
        adds v values,
      )
]

Adds-push : (x : String) → Adds (λ targets. targets ++ (x ∷ [])) x
Adds-push x v xs = ground (arith, includes-append v xs (x ∷ []), eq_iff x v)

pub Adds-set_add : (x : String) → Adds (λ targets. set_add targets x) x
Adds-set_add x v xs = includes-set_add v x xs

abbrev pub DependsEdge : String → String → GraphEdge → Type 0
DependsEdge u v e = (e.kind ≡ depends_on) × (e.from ≡ u) × (e.to ≡ v)

is_depends_on-cases :
    (k : EdgeKind)
    → ((is_depends_on k ≡ true) × (k ≡ depends_on)) ⊎ ((is_depends_on k ≡ false) × (k ≢ depends_on))
is_depends_on-cases k = ground arith

push_edges_iff :
    (index : Index) (edges : List GraphEdge) (u v : String)
    → (includes v (lookup (push_edges index edges) u) ≡ true) ↔ (
        (includes v (lookup index u) ≡ true)
        ⊎ ((includes u (keys index) ≡ true) × Any (DependsEdge u v) edges))
push_edges_iff index [] u v = ((λ h. inl h), (λ h. ground arith))
push_edges_iff index (e ∷ es) u v = elim (is_depends_on-cases e.kind) [
  | inl (t, k) ↦
      let f : List String → List String = λ targets. targets ++ (e.to ∷ []) in
      let ih = push_edges_iff (update_at f e.from index) es u v in
      let here = lookup-update_at f e.from e.to index u v (Adds-push e.to) in
      let same = ap (includes u) (keys-update_at f e.from index) in
      rw t (ground (arith, ih, here, same))
  | inr (t, k) ↦ let ih = push_edges_iff index es u v in rw t (ground (arith, ih))
]

pub keys-no_links : (ids : List String) → keys (no_links ids) ≡ ids
keys-no_links [] = refl
keys-no_links (id ∷ ids) = ap (λ rest. id ∷ rest) (keys-no_links ids)

pub lookup-no_links : (ids : List String) (u : String) → lookup (no_links ids) u ≡ []
lookup-no_links [] u = refl
lookup-no_links (id ∷ ids) u = elim (Option-cases (map_get entry_key u (no_links ids))) [
  | inl e ↦ ground arith
  | inr ((k, values), e) ↦ ground (arith, lookup-no_links ids u)
]

-- The adjacency leads from a node to the targets of its dependency edges.
pub dependency_adjacency_iff :
    (nodes : List GraphNode) (edges : List GraphEdge) (u v : String)
    → (includes v (lookup (dependency_adjacency nodes edges) u) ≡ true)
      ↔ ((includes u (map (λ n. n.node_id) nodes) ≡ true) × Any (DependsEdge u v) edges)
unfolding dependency_adjacency
dependency_adjacency_iff nodes edges u v =
    let ids : List String = map (λ n. n.node_id) nodes in
    let pushed = push_edges_iff (no_links ids) edges u v in
    let empty = ap (includes v) (lookup-no_links ids u) in
    let same = ap (includes u) (keys-no_links ids) in ground (arith, pushed, empty, same)

-- A link of an index, by its entries.
abbrev Link : String → String → String × List String → Type 0
Link t s (key, sources) = (key ≡ t) × (includes s sources ≡ true)

-- Where the keys are distinct, `lookup` finds the links of the entries.
lookup-Link_iff :
    (index : Index) (t s : String)
    → is_unique (keys index) ≡ true
    → (includes s (lookup index t) ≡ true) ↔ Any (Link t s) index
lookup-Link_iff [] t s h = ground arith
lookup-Link_iff ((k, values) ∷ rest) t s h = elim (Option-cases (map_get entry_key t rest)) [
  | inl e ↦ let ih = lookup-Link_iff rest t s in ground (arith, ih, eq_iff k t)
  | inr (a, e) ↦
      let ih = lookup-Link_iff rest t s in
      let present = has_entry rest t a e in
      let other : k == t ≡ false = elim (Bool-cases (k == t)) [
        | inl same ↦ absurd (ground (arith, ap (λ x. includes x (keys rest)) ((eq_iff k t).0 same)))
        | inr other ↦ other
      ] in
      ground (arith, ih)
]

keys-add_source :
    (index : Index) (t s k : String)
    → includes k (keys (add_source index t s)) ≡ (includes k (keys index) || t == k)
keys-add_source [] t s k = ground arith
keys-add_source ((j, values) ∷ rest) t s k = ground (arith, keys-add_source rest t s k, eq_iff j t)

is_unique-add_source :
    (index : Index) (t s : String)
    → is_unique (keys index) ≡ true
    → is_unique (keys (add_source index t s)) ≡ true
is_unique-add_source [] t s h = refl
is_unique-add_source ((j, values) ∷ rest) t s h =
    ground
      (arith, is_unique-add_source rest t s, keys-add_source rest t s j, eq_iff t j, eq_iff j t)

Link-add_source :
    (index : Index) (t s u v : String)
    → Any (Link u v) (add_source index t s) ↔ (Any (Link u v) index ⊎ ((t ≡ u) × (s ≡ v)))
Link-add_source [] t s u v = ground (arith, eq_iff s v)
Link-add_source ((j, values) ∷ rest) t s u v =
    ground (arith, Link-add_source rest t s u v, includes-set_add v s values, eq_iff j t)

Link-add_sources :
    (index : Index) (edges : List GraphEdge) (t s : String)
    → Any (Link t s) (add_sources index edges)
      ↔ (Any (Link t s) index ⊎ Any (λ (e : GraphEdge). (e.to ≡ t) × (e.from ≡ s)) edges)
Link-add_sources index [] t s = ((λ h. inl h), (λ h. ground arith))
Link-add_sources index (e ∷ es) t s =
    let ih = Link-add_sources (add_source index e.to e.from) es t s in
    let here = Link-add_source index e.to e.from t s in ground (arith, ih, here)

is_unique-add_sources :
    (index : Index) (edges : List GraphEdge)
    → is_unique (keys index) ≡ true
    → is_unique (keys (add_sources index edges)) ≡ true
is_unique-add_sources index [] h = h
is_unique-add_sources index (e ∷ es) h =
    is_unique-add_sources (add_source index e.to e.from) es
      (is_unique-add_source index e.to e.from h)

keys-sorted_entry : (index : Index) → keys (map sorted_entry index) ≡ keys index
keys-sorted_entry [] = refl
keys-sorted_entry ((k, values) ∷ rest) = ap (λ ks. k ∷ ks) (keys-sorted_entry rest)

Link-sorted_entry :
    (index : Index) (t s : String) → Any (Link t s) (map sorted_entry index) ↔ Any (Link t s) index
Link-sorted_entry [] t s = ((λ a. a), (λ a. a))
Link-sorted_entry ((k, values) ∷ rest) t s =
    ground (arith, Link-sorted_entry rest t s, includes-sort s values)

-- The reverse index leads from a node to the sources of the edges to it.
pub build_reverse_index_iff :
    (host : Host) (edges : List GraphEdge) (t s : String)
    → (includes s (lookup (build_reverse_index host edges) t) ≡ true)
      ↔ Any (λ (e : GraphEdge). (e.to ≡ t) × (e.from ≡ s)) edges
unfolding build_reverse_index
build_reverse_index_iff host edges t s =
    let raw = add_sources [] edges in
    let sorted = sort_by (entry_leb host) raw in
    let distinct = is_unique-sort_by entry_key (entry_leb host) raw in
    let unique : is_unique (keys (map sorted_entry sorted)) ≡ true =
      ap is_unique (keys-sorted_entry sorted) ∙ distinct ∙ is_unique-add_sources [] edges refl in
    let found = lookup-Link_iff (map sorted_entry sorted) t s unique in
    let a = Link-sorted_entry sorted t s in
    let b = Any-sort_by_iff (Link t s) (entry_leb host) raw in
    let c = Link-add_sources [] edges t s in ground (arith, found, a, b, c)
