-- ===== src/Artifacts/Laws.antt =====
-- The artifact store is append-only: `writeExclusiveOrVerify` of
-- packages/weave/src/capsule/artifact-store.ts never changes what a path holds.
use domain_eval_weave.Base.{
  ◌≡◌, ◌↔◌, ◌⊎◌, inl, inr, String, none, some, ◌∷◌, eq_iff, eq_refl, arith, Option-cases,
}
use domain_eval_weave.Base.Result.{Failure, ok}
use domain_eval_weave.Artifacts.{Store, lookup, write_exclusive_or_verify}

module _ (path bytes : String) (collision : Failure) (store : Store) where
  -- A write succeeds exactly when the path is free or holds these bytes already.
  pub write_exclusive_or_verify-ok_iff :
      ((after : Store) × (write_exclusive_or_verify path bytes collision store ≡ ok after))
      ↔ ((lookup path store ≡ none) ⊎ (lookup path store ≡ some bytes))
  unfolding write_exclusive_or_verify
  write_exclusive_or_verify-ok_iff = elim (Option-cases (lookup path store)) [
    | inl e ↦ ((λ h. inl e), (λ h. ((path, bytes) ∷ store, ground arith)))
    | inr (old, e) ↦ (
      (λ (after, h). inr (ground (arith, eq_iff old bytes))),
      (λ h. (store, ground (arith, eq_iff old bytes))),
    )
  ]

  module _ (after : Store)
      (wrote : write_exclusive_or_verify path bytes collision store ≡ ok after) where
    -- After a write that succeeds, the path holds the bytes.
    pub lookup-write_self : lookup path after ≡ some bytes
    unfolding write_exclusive_or_verify lookup
    lookup-write_self = elim (Option-cases (lookup path store)) [
      | inl e ↦ ground (arith, eq_refl path)
      | inr (old, e) ↦ ground (arith, eq_iff old bytes)
    ]

    -- A write that succeeds keeps the bytes of every file that was there.
    pub lookup-write_kept : (q old : String) → lookup q store ≡ some old → lookup q after ≡ some old
    unfolding write_exclusive_or_verify lookup
    lookup-write_kept q old h = ground (arith, eq_iff path q)
