-- ===== src/Domain/Search.antt =====
-- The worklist of `impactedByClaim` and of `requestedClosure`: `pending` is taken from the front,
-- and an entry seen for the first time adds its neighbours at the back.
pub mod Laws
use domain_eval_weave.Base.{
  ℕ, zero, suc, ◌+◌, String, true, false, Option, none, some, List, [], ◌∷◌, ◌++◌, ◌==◌, length,
  includes, if◌then◌else◌, ◌≡◌,
}
use domain_eval_weave.Domain.Index.{Index, lookup}

-- The `while` loop, with `none` where the fuel is spent.
unfoldable pub explore : Index → ℕ → List String → List String → Option (List String)
explore index fuel seen [] = some seen
explore index zero seen (x ∷ pending) = none
explore index (suc fuel) seen (x ∷ pending) = elim (includes x seen) [
  | true ↦ explore index fuel seen pending
  | false ↦ explore index fuel (seen ++ (x ∷ [])) (pending ++ lookup index x)
]

-- The neighbours that are still to be queued.
abbrev pub unqueued : Index → List String → ℕ
unqueued [] seen = 0
unqueued ((key, values) ∷ rest) seen =
    if includes key seen then unqueued rest seen else length values + unqueued rest seen

-- Each round takes one entry, and each neighbour is queued at most once.
unfoldable pub search : Index → List String → Option (List String)
unfolding explore
search index starts = explore index (length starts + unqueued index []) [] starts

-- What a walk along the index leads to from one of the starts.
pub data Reach (index : Index) (starts : List String) : String → Type 0 where
  start : {v : String} → includes v starts ≡ true → Reach index starts v
  step :
      {u v : String}
      → Reach index starts u
      → includes v (lookup index u) ≡ true
      → Reach index starts v
