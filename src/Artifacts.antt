-- ===== src/Artifacts.antt =====
-- The files below `.eval` of a Capsule, by path, and `writeExclusiveOrVerify` of
-- packages/weave/src/capsule/artifact-store.ts.
pub mod Laws
use domain_eval_weave.Base.{String, Option, none, some, List, [], ◌∷◌, ◌==◌, if◌then◌else◌}
use domain_eval_weave.Base.Result.{Failure, Result, ok, err}

abbrev pub Store : Type 0
Store = List (String × String)

unfoldable pub lookup : String → Store → Option String
lookup path [] = none
lookup path ((q, bytes) ∷ store) = if q == path then some bytes else lookup path store

-- A file is created, or must hold the same bytes already.
unfoldable pub write_exclusive_or_verify : String → String → Failure → Store → Result Store
write_exclusive_or_verify path bytes collision store = elim (lookup path store) [
  | none ↦ ok ((path, bytes) ∷ store)
  | some existing ↦ if existing == bytes then ok store else err collision
]
