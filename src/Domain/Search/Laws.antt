-- ===== src/Domain/Search/Laws.antt =====
-- The search ends, and finds exactly what walks lead to.
use domain_eval_weave.Base.{
  ℕ, zero, suc, ◌+◌, ◌≤◌, ◌≡◌, refl, String, true, false, some, List, [], ◌∷◌, ◌++◌, length,
  includes, ◌↔◌, ◌⊎◌, inl, inr, arith, eq_iff, Bool-cases, Option-cases, map_get, subst, some-inj,
  eq_refl,
}
use domain_eval_weave.Domain.Index.{Index, lookup, entry_key, includes-append, length-append}
use domain_eval_weave.Domain.Search.{explore, search, unqueued, Reach, start, step}

unqueued-append :
    (index : Index) (seen : List String) (x : String)
    → unqueued index (seen ++ (x ∷ [])) ≤ unqueued index seen
unqueued-append [] seen x = omega arith
unqueued-append ((key, values) ∷ rest) seen x =
    ground (arith, includes-append key seen (x ∷ []), unqueued-append rest seen x)

-- An entry seen for the first time is queued no more.
unqueued-visit :
    (index : Index) (seen : List String) (x : String)
    → includes x seen ≡ false
    → length (lookup index x) + unqueued index (seen ++ (x ∷ [])) ≤ unqueued index seen
unqueued-visit [] seen x h = omega arith
unqueued-visit ((key, values) ∷ rest) seen x h = elim (Option-cases (map_get entry_key x rest)) [
  | inl e ↦
      ground (arith, eq_iff key x, includes-append key seen (x ∷ []), unqueued-visit rest seen x h)
  | inr (a, e) ↦
      ground (arith, eq_iff key x, includes-append key seen (x ∷ []), unqueued-visit rest seen x h)
]

explore_ends :
    (index : Index) (fuel : ℕ) (seen pending : List String)
    → length pending + unqueued index seen ≤ fuel
    → (found : List String) × (explore index fuel seen pending ≡ some found)
unfolding explore
explore_ends index fuel seen [] h = (seen, refl)
explore_ends index zero seen (x ∷ pending) h = absurd (omega arith)
explore_ends index (suc fuel) seen (x ∷ pending) h = elim (Bool-cases (includes x seen)) [
  | inl e ↦ rw (e, explore) (explore_ends index fuel seen pending (omega arith))
  | inr e ↦
      let room = unqueued-visit index seen x e in
      rw (e, explore)
        (explore_ends index fuel (seen ++ (x ∷ [])) (pending ++ lookup index x)
          (omega (arith, length-append pending (lookup index x))))
]

-- The search always returns.
pub search_returns :
    (index : Index) (starts : List String)
    → (found : List String) × (search index starts ≡ some found)
unfolding search
search_returns index starts =
    explore_ends index (length starts + unqueued index []) [] starts (omega arith)

module _ (index : Index) (P : List String → List String → Type 0) where
  -- What both kinds of round keep holds where the queue is empty.
  explore_rule :
      ((seen : List String) (x : String) (rest : List String)
        → P seen (x ∷ rest)
        → includes x seen ≡ true
        → P seen rest)
      → ((seen : List String) (x : String) (rest : List String)
          → P seen (x ∷ rest)
          → P (seen ++ (x ∷ [])) (rest ++ lookup index x))
      → (fuel : ℕ) (seen pending found : List String) → P seen pending
      → explore index fuel seen pending ≡ some found
      → P found []
  unfolding explore
  explore_rule skip visit fuel seen [] found p h = subst (λ s. P s []) (some-inj seen found h) p
  explore_rule skip visit zero seen (x ∷ pending) found p h = cc
  explore_rule skip visit (suc fuel) seen (x ∷ pending) found p h =
      elim (Bool-cases (includes x seen)) [
        | inl e ↦
            explore_rule skip visit fuel seen pending found (skip seen x pending p e)
              (rw (e, explore) at h)
        | inr e ↦
            explore_rule skip visit fuel (seen ++ (x ∷ [])) (pending ++ lookup index x) found
              (visit seen x pending p) (rw (e, explore) at h)
      ]

module _ (index : Index) (starts : List String) where
  -- The starts are known, what is known is reached, and what a seen entry leads to is known.
  record Inv (seen pending : List String) : Type 0 where
    source :
        (v : String)
        → includes v starts ≡ true
        → (includes v seen ≡ true) ⊎ (includes v pending ≡ true)
    sound :
        (v : String) → (includes v seen ≡ true) ⊎ (includes v pending ≡ true) → Reach index starts v
    closed :
        (u v : String)
        → includes u seen ≡ true
        → includes v (lookup index u) ≡ true
        → (includes v seen ≡ true) ⊎ (includes v pending ≡ true)

  Inv-skip :
      (seen : List String) (x : String) (rest : List String)
      → Inv seen (x ∷ rest)
      → includes x seen ≡ true
      → Inv seen rest
  Inv-skip seen x rest h e = record {
    source = λ v s. ground (arith, source v s, eq_iff x v);
    sound = λ v k. ground (arith, sound v);
    closed = λ u v m edge. ground (arith, closed u v m edge, eq_iff x v);
  }
    where
      open h use {source, sound, closed}

  Inv-visit :
      (seen : List String) (x : String) (rest : List String)
      → Inv seen (x ∷ rest)
      → Inv (seen ++ (x ∷ [])) (rest ++ lookup index x)
  Inv-visit seen x rest h =
      let to_x = sound x (inr (ground (arith, eq_refl x))) in
      let flags = λ (v : String). includes-append v seen (x ∷ []) in
      let queue = λ (v : String). includes-append v rest (lookup index x) in
      record {
        source = λ v s. ground (arith, source v s, eq_iff x v, flags v, queue v);
        sound = λ v k. elim (Bool-cases (includes v (lookup index x))) [
          | inl m ↦ step to_x m
          | inr m ↦ sound v (ground (arith, flags v, queue v, eq_iff x v))
        ];
        closed = λ u v m edge.
            ground (arith, closed u v, eq_iff x v, eq_iff x u, flags v, flags u, queue v);
      }
    where
      open h use {source, sound, closed}

  complete :
      (found : List String)
      → Inv found []
      → {v : String} → Reach index starts v
      → includes v found ≡ true
  complete found h (start {v} s) = ground (arith, h.source v s)
  complete found h (step {u} {v} r e) = ground (arith, h.closed u v (complete found h r) e)

-- What the search returns is what walks lead to.
pub search-Reach_iff :
    (index : Index) (starts found : List String) (v : String)
    → search index starts ≡ some found
    → (includes v found ≡ true) ↔ Reach index starts v
unfolding search
search-Reach_iff index starts found v h =
    let inv =
      explore_rule index (Inv index starts) (Inv-skip index starts) (Inv-visit index starts) _ []
        starts found
        (record {
          source = λ u s. inr s;
          sound = λ u k. start (ground arith);
          closed = λ u w m e. cc;
        })
        h in
    ((λ m. inv.sound v (inl m)), complete index starts found inv)

-- The search returns, and holds exactly what a walk leads to from one of the starts.
pub search_decides :
    (index : Index) (starts : List String)
    → (found : List String) × (search index starts ≡ some found)
      × ((v : String) → (includes v found ≡ true) ↔ Reach index starts v)
search_decides index starts =
    let (found, ends) = search_returns index starts in
    (found, ends, λ v. search-Reach_iff index starts found v ends)
