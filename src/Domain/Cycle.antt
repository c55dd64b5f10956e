-- ===== src/Domain/Cycle.antt =====
-- The depth-first search of `assertNoDependencyCycle` (src/domain/graph.ts) for a cycle.
pub mod Laws
use domain_eval_weave.Base.{
  ℕ, zero, suc, ◌+◌, String, true, false, List, [], ◌∷◌, ◌++◌, length, includes, if◌then◌else◌, ◌≡◌,
}
use domain_eval_weave.Domain.Index.{Index, lookup}

-- How a visit ends: with the nodes visited so far, by a throw that names a node, or out of fuel.
pub data Outcome : Type 0 where
  visited : List String → Outcome
  cycle : String → Outcome
  out_of_fuel : Outcome

-- What follows a visit that throws is not run.
abbrev pub and_then : Outcome → (List String → Outcome) → Outcome
and_then (visited done) next = next done
and_then (cycle c) next = cycle c
and_then out_of_fuel next = out_of_fuel

-- `for (const x of xs) visit(x)`, where `visit` takes and returns the set `visited`.
abbrev pub visit_each : (List String → String → Outcome) → List String → List String → Outcome
visit_each visit done [] = visited done
visit_each visit done (x ∷ xs) = and_then (visit done x) λ more. visit_each visit more xs

-- A node is put on `visiting` for the visits of its dependencies.
unfoldable pub visit : Index → ℕ → List String → List String → String → Outcome
visit adjacency zero visiting done node = out_of_fuel
visit adjacency (suc fuel) visiting done node = elim (includes node visiting) [
  | true ↦ cycle node
  | false ↦ elim (includes node done) [
    | true ↦ visited done
    | false ↦
        and_then (visit_each (visit adjacency fuel (node ∷ visiting)) done (lookup adjacency node))
          λ more. visited (more ++ (node ∷ []))
  ]
]

-- A visit goes deeper only from an entry of the index, so this depth is enough.
unfoldable pub visit_all : Index → List String → Outcome
unfolding visit
visit_all adjacency nodes = visit_each (visit adjacency (suc (length adjacency)) []) [] nodes

-- A walk of one step or more.
pub data Walk (adjacency : Index) : String → String → Type 0 where
  edge : {u v : String} → includes v (lookup adjacency u) ≡ true → Walk adjacency u v
  via :
      {u v w : String}
      → includes v (lookup adjacency u) ≡ true
      → Walk adjacency v w
      → Walk adjacency u w
