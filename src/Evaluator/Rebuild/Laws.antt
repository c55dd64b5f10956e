-- ===== src/Evaluator/Rebuild/Laws.antt =====
-- What the verdict of a rebuilt Run says of its Claims
-- (`rebuildRun` of packages/weave/src/evaluator/engine.ts).
use domain_eval_weave.Base.{
  ◌≡◌, ◌↔◌, ◌≢◌, ◌⊎◌, refl, arith, All, Any, List, [], ◌∷◌, ap, ◌∙◌, any, true,
}
use domain_eval_weave.Base.Result.{ok}
use domain_eval_weave.Capsule.Contracts.{
  ResultStatus, pass, fail, inconclusive, measurement_error, valid, accept, reject, undecided,
  EvaluationRun,
}
use domain_eval_weave.Capsule.Schema.Parse.{parse_evaluation_run-ok}
use domain_eval_weave.Evaluator.Rebuild.{
  validity_of, verdict_of, statuses_of, rebuilt, rebuild_run, is_fail,
}

-- All statuses are conclusive: each passes or fails.
abbrev pub IsConclusive : ResultStatus → Type 0
IsConclusive s = (s ≡ pass) ⊎ (s ≡ fail)

valid_iff : (ss : List ResultStatus) → (validity_of ss ≡ valid) ↔ All IsConclusive ss
unfolding validity_of
valid_iff [] = ((λ h. tt), (λ h. refl))
valid_iff (pass ∷ ss) = ground (arith, valid_iff ss)
valid_iff (fail ∷ ss) = ground (arith, valid_iff ss)
valid_iff (inconclusive ∷ ss) = ground (arith, valid_iff ss)
valid_iff (measurement_error ∷ ss) = ground (arith, valid_iff ss)

accept_iff :
    (ss : List ResultStatus)
    → (verdict_of (validity_of ss) ss ≡ accept) ↔ ((ss ≢ []) × All (λ s. s ≡ pass) ss)
unfolding verdict_of validity_of
accept_iff [] = ((λ h. cc), (λ h. absurd (h.0 refl)))
accept_iff (pass ∷ []) = ((λ h. ((λ e. cc), (refl, tt))), (λ h. refl))
accept_iff (pass ∷ s ∷ ss) =
    let ih = accept_iff (s ∷ ss) in
    (
      (λ h. ((λ e. cc), (refl, (ih.0 (ground arith)).1))),
      (λ h. let k = ih.1 ((λ e. cc), h.1.1) in ground arith),
    )
accept_iff (fail ∷ ss) = ((λ h. ground arith), (λ h. cc))
accept_iff (inconclusive ∷ ss) = ((λ h. ground arith), (λ h. cc))
accept_iff (measurement_error ∷ ss) = ((λ h. ground arith), (λ h. cc))

any_fail_iff : (ss : List ResultStatus) → (any is_fail ss ≡ true) ↔ Any (λ s. s ≡ fail) ss
any_fail_iff [] = ((λ h. cc), (λ h. absurd h))
any_fail_iff (pass ∷ ss) = ground (arith, any_fail_iff ss)
any_fail_iff (fail ∷ ss) = ground arith
any_fail_iff (inconclusive ∷ ss) = ground (arith, any_fail_iff ss)
any_fail_iff (measurement_error ∷ ss) = ground (arith, any_fail_iff ss)

reject_iff :
    (ss : List ResultStatus)
    → (verdict_of (validity_of ss) ss ≡ reject) ↔ (All IsConclusive ss × Any (λ s. s ≡ fail) ss)
unfolding verdict_of
reject_iff ss = (
  (λ h. ((valid_iff ss).0 (ground arith), (any_fail_iff ss).0 (ground arith))),
  (λ h. ground (arith, (valid_iff ss).1 h.0, (any_fail_iff ss).1 h.1)),
)

unjudged :
    (ss : List ResultStatus)
    → All (λ s. (s ≡ inconclusive) ⊎ (s ≡ measurement_error)) ss
    → verdict_of (validity_of ss) ss ≡ undecided
unfolding verdict_of validity_of
unjudged [] h = refl
unjudged (s ∷ ss) h = ground arith

module _ (run rebuilt_run : EvaluationRun) (returned : rebuild_run run ≡ ok rebuilt_run) where
  pub rebuild_run-rebuilt : rebuilt_run ≡ rebuilt run
  unfolding rebuild_run
  rebuild_run-rebuilt = (parse_evaluation_run-ok (rebuilt run) rebuilt_run returned).1

  -- A rebuilt Run is accepted exactly when it judges at least one Claim and every Claim passes.
  pub rebuild_run-accept_iff :
      (rebuilt_run.verdict ≡ accept)
      ↔ ((statuses_of run ≢ []) × All (λ s. s ≡ pass) (statuses_of run))
  unfolding rebuilt
  rebuild_run-accept_iff = rw rebuild_run-rebuilt (accept_iff (statuses_of run))

  -- A rebuilt Run is rejected exactly when every Claim is judged, none in error, and some Claim
  -- fails: one Claim that is inconclusive or in error makes the verdict inconclusive instead.
  pub rebuild_run-reject_iff :
      (rebuilt_run.verdict ≡ reject)
      ↔ (All IsConclusive (statuses_of run) × Any (λ s. s ≡ fail) (statuses_of run))
  unfolding rebuilt
  rebuild_run-reject_iff = rw rebuild_run-rebuilt (reject_iff (statuses_of run))

  -- Rebuilding a rebuilt Run returns it unchanged.
  pub rebuild_run-rebuild_run : rebuild_run rebuilt_run ≡ ok rebuilt_run
  unfolding rebuild_run rebuilt
  rebuild_run-rebuild_run = let e = rebuild_run-rebuilt in rw e (returned ∙ ap ok e)

  -- A Run with no Claim that passes or fails has no hard verdict.
  pub rebuild_run-undecided :
      All (λ s. (s ≡ inconclusive) ⊎ (s ≡ measurement_error)) (statuses_of run)
      → rebuilt_run.verdict ≡ undecided
  unfolding rebuilt
  rebuild_run-undecided h = rw rebuild_run-rebuilt (unjudged (statuses_of run) h)
