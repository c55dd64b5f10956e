-- ===== src/Domain/Cycle/Laws.antt =====
-- The search for a cycle ends, and throws exactly where some walk returns to its start.
use domain_eval_weave.Base.{
  ℕ, zero, suc, ◌≤◌, ◌<◌, ◌≡◌, refl, subst, String, true, false, List, [], ◌∷◌, ◌++◌, length,
  includes, ◌==◌, inl, inr, arith, eq_iff, eq_refl, Bool-cases, Option-cases, map_get,
  if◌then◌else◌,
}
use domain_eval_weave.Domain.Index.{Index, lookup, entry_key, includes-append}
use domain_eval_weave.Domain.Cycle.{
  Outcome, visited, cycle, out_of_fuel, visit_each, and_then, visit, visit_all, Walk, edge, via,
}

-- A node that every walk leaves after finitely many steps.
data IsGrounded (adjacency : Index) : String → Type 0 where
  grounded :
      {v : String}
      → ((w : String) → includes w (lookup adjacency v) ≡ true → IsGrounded adjacency w)
      → IsGrounded adjacency v

Walk-snoc :
    (adjacency : Index) {u v w : String}
    → Walk adjacency u v
    → includes w (lookup adjacency v) ≡ true
    → Walk adjacency u w
Walk-snoc adjacency (edge e) d = via e (edge d)
Walk-snoc adjacency (via e p) d = via e (Walk-snoc adjacency p d)

-- No walk leads from such a node back to it.
not_Walk : (adjacency : Index) (v : String) → IsGrounded adjacency v → ¬ Walk adjacency v v
not_Walk adjacency v (grounded below) (edge e) = not_Walk adjacency v (below v e) (edge e)
not_Walk adjacency v (grounded below) (via {v = w} e p) =
    not_Walk adjacency w (below w e) (Walk-snoc adjacency p e)

-- The entries of the index that are not on the path to the current node.
abbrev unentered : Index → List String → ℕ
unentered [] visiting = 0
unentered ((key, values) ∷ rest) visiting =
    if includes key visiting then unentered rest visiting else suc (unentered rest visiting)

unentered-nil : (adjacency : Index) → unentered adjacency [] ≡ length adjacency
unentered-nil [] = refl
unentered-nil ((key, values) ∷ rest) = ground (arith, unentered-nil rest)

unentered-le :
    (adjacency : Index) (visiting : List String) (node : String)
    → unentered adjacency (node ∷ visiting) ≤ unentered adjacency visiting
unentered-le [] visiting node = omega arith
unentered-le ((key, values) ∷ rest) visiting node = ground (arith, unentered-le rest visiting node)

-- Where a node has neighbours it is an entry, so entering it leaves fewer.
unentered-lt :
    (adjacency : Index) (visiting : List String) (node neighbour : String)
    → includes node visiting ≡ false
    → includes neighbour (lookup adjacency node) ≡ true
    → unentered adjacency (node ∷ visiting) < unentered adjacency visiting
unentered-lt [] visiting node neighbour h m = cc
unentered-lt ((key, values) ∷ rest) visiting node neighbour h m =
    elim (Option-cases (map_get entry_key node rest)) [
      | inl e ↦ ground (arith, eq_iff key node, eq_iff node key, unentered-le rest visiting node)
      | inr (a, e) ↦
          ground
            (arith, unentered-le rest visiting node, unentered-lt rest visiting node neighbour h)
    ]

module _ (adjacency : Index) where
  AllGrounded : List String → Type 0
  AllGrounded xs = (v : String) → includes v xs ≡ true → IsGrounded adjacency v

  record IsDone (before nodes after : List String) : Type 0 where
    keeps : (v : String) → includes v before ≡ true → includes v after ≡ true
    covers : (v : String) → includes v nodes ≡ true → includes v after ≡ true
    sound : AllGrounded after

  -- What a visit of `nodes` owes its caller.
  abbrev Owes : List String → List String → Outcome → Type 0
  Owes before nodes (visited after) = IsDone before nodes after
  Owes before nodes (cycle c) = Walk adjacency c c
  Owes before nodes out_of_fuel = ⊥

  Visits : (List String → String → Outcome) → List String → Type 0
  Visits f nodes =
      (v : String) (done : List String)
      → includes v nodes ≡ true
      → AllGrounded done
      → Owes done (v ∷ []) (f done v)

  and_then-Owes :
      (before now later : List String) (o : Outcome) (next : List String → Outcome)
      → ((after : List String) → IsDone before now after → Owes before later (next after))
      → Owes before now o
      → Owes before later (and_then o next)
  and_then-Owes before now later (visited after) next h done = h after done
  and_then-Owes before now later (cycle c) next h w = w
  and_then-Owes before now later out_of_fuel next h e = e

  -- What a visit owes after an earlier one it also owes from the start.
  Owes-trans :
      (before middle : List String) (x : String) (xs : List String) (o : Outcome)
      → IsDone before (x ∷ []) middle
      → Owes middle xs o
      → Owes before (x ∷ xs) o
  Owes-trans before middle x xs (visited after) first later = record {
    keeps = λ v m. later.keeps v (first.keeps v m);
    covers = λ v m. elim (Bool-cases (x == v)) [
      | inl e ↦ later.keeps v (first.covers v (rw e refl))
      | inr e ↦ later.covers v (rw e at m)
    ];
    sound = later.sound;
  }
  Owes-trans before middle x xs (cycle c) first later = later
  Owes-trans before middle x xs out_of_fuel first later = later

  visit_each-Owes :
      (f : List String → String → Outcome) (nodes done : List String)
      → Visits f nodes
      → AllGrounded done
      → Owes done nodes (visit_each f done nodes)
  unfolding AllGrounded Visits
  visit_each-Owes f [] done h g = record { keeps = λ v m. m; covers = λ v m. cc; sound = g }
  visit_each-Owes f (x ∷ xs) done h g =
      and_then-Owes done (x ∷ []) (x ∷ xs) (f done x) (λ more. visit_each f more xs)
        (λ more first. Owes-trans done more x xs (visit_each f more xs) first (
          visit_each-Owes f xs more (λ v before m. h v before (ground (arith, eq_iff x v)))
            first.sound))
        (h x done (ground (arith, eq_refl x)) g)

  -- A node whose neighbours are all visited joins them.
  finish-IsDone :
      (done more : List String) (node : String)
      → IsDone done (lookup adjacency node) more
      → IsDone done (node ∷ []) (more ++ (node ∷ []))
  unfolding AllGrounded
  finish-IsDone done more node h =
      let joined = λ (v : String). includes-append v more (node ∷ []) in
      let ground_node = grounded {v = node} (λ w m. h.sound w (h.covers w m)) in
      record {
        keeps = λ v m. ground (arith, joined v, h.keeps v);
        covers = λ v m. ground (arith, joined v);
        sound = λ v m. elim (Bool-cases (includes v more)) [
          | inl e ↦ h.sound v e
          | inr e ↦
              subst (IsGrounded adjacency) (ground (arith, joined v, eq_iff node v)) ground_node
        ];
      }

  same-includes :
      (node v : String) (xs : List String)
      → includes node xs ≡ true
      → includes v (node ∷ []) ≡ true
      → includes v xs ≡ true
  same-includes node v xs h m = subst (λ w. includes w xs ≡ true) (ground (arith, eq_iff node v)) h

  -- Every node of the path reaches what the last one depends on.
  longer :
      (visiting : List String) (node v : String)
      → ((u : String) → includes u visiting ≡ true → Walk adjacency u node)
      → includes v (lookup adjacency node) ≡ true
      → (u : String) → includes u (node ∷ visiting) ≡ true
      → Walk adjacency u v
  longer visiting node v path m u k = elim (Bool-cases (node == u)) [
    | inl same ↦ subst (λ w. Walk adjacency w v) ((eq_iff node u).0 same) (edge m)
    | inr other ↦ Walk-snoc adjacency (path u (rw other at k)) m
  ]

  -- A visit within the fuel returns, or has found a walk that closes.
  visit-Owes :
      (fuel : ℕ) (visiting done : List String) (node : String)
      → unentered adjacency visiting < fuel
      → ((v : String) → includes v visiting ≡ true → Walk adjacency v node)
      → AllGrounded done
      → Owes done (node ∷ []) (visit adjacency fuel visiting done node)
  unfolding visit AllGrounded Visits
  visit-Owes zero visiting done node room path g = absurd (omega arith)
  visit-Owes (suc fuel) visiting done node room path g =
      elim (Bool-cases (includes node visiting)) [
        | inl e ↦ rw (visit, e) (path node e)
        | inr e ↦ elim (Bool-cases (includes node done)) [
          | inl seen ↦
              rw (visit, e, seen)
                (record {
                  keeps = λ v m. m;
                  covers = λ v m. same-includes node v done seen m;
                  sound = g;
                })
          | inr fresh ↦
              rw (visit, e, fresh)
                (and_then-Owes done (lookup adjacency node) (node ∷ [])
                  (visit_each (visit adjacency fuel (node ∷ visiting)) done (lookup adjacency node))
                  (λ more. visited (more ++ (node ∷ []))) (λ more h. finish-IsDone done more node h)
                  (visit_each-Owes (visit adjacency fuel (node ∷ visiting)) (lookup adjacency node)
                    done
                    (λ v before m.
                      visit-Owes fuel (node ∷ visiting) before v
                        (omega (arith, unentered-lt adjacency visiting node v e m))
                        (longer visiting node v path m))
                    g))
        ]
      ]

-- The search returns, or throws and names a node on a closed walk.
visit_all-Owes :
    (adjacency : Index) (nodes : List String) → Owes adjacency [] nodes (visit_all adjacency nodes)
unfolding visit_all AllGrounded Visits
visit_all-Owes adjacency nodes =
    visit_each-Owes adjacency (visit adjacency (suc (length adjacency)) []) nodes []
      (λ v done m g.
        visit-Owes adjacency (suc (length adjacency)) [] done v
          (omega (arith, unentered-nil adjacency)) (λ u k. cc) g)
      (λ v m. cc)

pub data Finding (adjacency : Index) (nodes : List String) (o : Outcome) : Type 0 where
  acyclic :
      (done : List String)
      → o ≡ visited done
      → ((v : String) → includes v nodes ≡ true → ¬ Walk adjacency v v)
      → Finding adjacency nodes o
  cyclic : (c : String) → o ≡ cycle c → Walk adjacency c c → Finding adjacency nodes o

-- The search never runs out of fuel, returns only where no node lies on a closed walk, and throws
-- only at a node that does.
pub visit_all_decides :
    (adjacency : Index) (nodes : List String) → Finding adjacency nodes (visit_all adjacency nodes)
unfolding AllGrounded
visit_all_decides adjacency nodes =
    judge (visit_all adjacency nodes) (visit_all-Owes adjacency nodes)
  where
    judge : (o : Outcome) → Owes adjacency [] nodes o → Finding adjacency nodes o
    judge (visited done) h =
        acyclic done refl (λ v m. not_Walk adjacency v (h.sound v (h.covers v m)))
    judge (cycle c) w = cyclic c refl w
    judge out_of_fuel e = absurd e
