-- ===== src/Harness/Laws.antt =====
-- What the effect of a Harness experiment says of the two Runs.
use domain_eval_weave.Base.{
  ◌≡◌, refl, sym, ap, ◌∙◌, ◌==◌, ◌↔◌, inl, inr, true, false, not, Option, none, some, some-inj,
  List, [], ◌∷◌, All, any, is_empty, Bool-cases, arith, filter, map, is_empty-sort_by, sort,
}
use domain_eval_weave.Base.Result.{ok, require, >>=-eq-ok, ok-inj}
use domain_eval_weave.Capsule.Contracts.{ClaimResult, ResultStatus, valid, EvaluationRun}
use domain_eval_weave.Evaluator.Calibration.Report.{status_at, status_is}
use domain_eval_weave.Evaluator.Calibration.Laws.{status_is_iff}
use domain_eval_weave.Harness.{
  no_observed_difference, activated, HarnessInput, HarnessExperimentReport, status_rank,
  rank_improves, shares_subject, not_shared, not_distinct, rank_harms, improved, harmed,
  changed_claims, effect_of, build_harness_experiment_report,
}

-- The treatment judges the Claim, in a status of the same rank.
abbrev pub HasSameRank : EvaluationRun → ClaimResult → Type 0
HasSameRank treatment c =
    (s : ResultStatus) × (status_at treatment c.claim_id ≡ some s)
    × (status_rank s ≡ status_rank c.status)

same_rank_iff :
    (before : ResultStatus) (after : Option ResultStatus)
    → ((rank_improves before after ≡ false) × (rank_harms before after ≡ false))
      ↔ ((s : ResultStatus) × (after ≡ some s) × (status_rank s ≡ status_rank before))
same_rank_iff before none = ground arith
same_rank_iff before (some s) = (
  (λ h. (s, refl, ground arith)),
  (λ (t, e, r).
      let same : status_rank s ≡ status_rank before = ap status_rank (some-inj s t e) ∙ r in
      ground arith),
)

unmoved_iff :
    (treatment : EvaluationRun) (cs : List ClaimResult)
    → ((any (λ c. rank_improves (ClaimResult.status c) (status_at treatment c.claim_id)) cs ≡ false)
        × (any (λ c. rank_harms (ClaimResult.status c) (status_at treatment c.claim_id)) cs
            ≡ false))
      ↔ All (HasSameRank treatment) cs
unmoved_iff treatment [] = ground arith
unmoved_iff treatment (c ∷ cs) =
    ground
      (arith, same_rank_iff c.status (status_at treatment c.claim_id), unmoved_iff treatment cs)

-- The measurement of an experiment stands: the mechanism and both Runs are valid, and the
-- intervention was activated.
abbrev pub IsMeasured : HarnessInput → Type 0
IsMeasured input =
    (input.mechanism_validity ≡ valid)
    × (input.control.measurement_validity ≡ valid)
    × (input.treatment.measurement_validity ≡ valid)
    × (input.activation ≡ activated)

effect_of-none_iff :
    (input : HarnessInput)
    → (effect_of input ≡ no_observed_difference) ↔ (
        IsMeasured input
        × (improved input.control input.treatment ≡ false)
        × (harmed input.control input.treatment ≡ false))
unfolding effect_of
effect_of-none_iff input = ground arith

unchanged-same :
    (treatment : EvaluationRun) (cs : List ClaimResult)
    → is_empty (
        map
          (λ c. ClaimResult.claim_id c)
          (filter
            (λ c. not (status_is (status_at treatment (ClaimResult.claim_id c)) c.status))
            cs))
      ≡ true
    → All (HasSameRank treatment) cs
unchanged-same treatment [] h = tt
unchanged-same treatment (c ∷ cs) h =
    elim (Bool-cases (status_is (status_at treatment c.claim_id) c.status)) [
      | inl e ↦ ((c.status, (status_is_iff _ _).0 e, refl), unchanged-same treatment cs (rw e at h))
      | inr e ↦ cc (rw e at h)
    ]

module _ (input : HarnessInput) (report : HarnessExperimentReport)
    (built : build_harness_experiment_report input ≡ ok report) where
  -- The report states the effect and the changed Claims that are computed from its Runs, which
  -- share one Release, Requirement and Evaluator and judge two Candidates.
  report-Computed :
      (report.effect ≡ effect_of input)
      × (report.changed_claims ≡ changed_claims input.control input.treatment)
  unfolding build_harness_experiment_report
  report-Computed =
      let control = input.control in
      let treatment = input.treatment in
      let (_, _, h₁) = >>=-eq-ok (require (shares_subject control treatment) not_shared) _ built in
      let (_, _, h₂) =
        >>=-eq-ok (require (not (control.candidate_id == treatment.candidate_id)) not_distinct) _
          h₁ in
      let e = ok-inj _ _ h₂ in
      (
        sym (ap (λ r. HarnessExperimentReport.effect r) e),
        sym (ap (λ r. HarnessExperimentReport.changed_claims r) e),
      )

  -- A report says that no difference was observed exactly if the mechanism and both Runs are valid,
  -- the intervention was activated, and the treatment judges every Claim of the control in a status
  -- of the same rank.
  pub build_harness_experiment_report-none_iff :
      (report.effect ≡ no_observed_difference)
      ↔ (IsMeasured input × All (HasSameRank input.treatment) input.control.claims)
  unfolding improved harmed
  build_harness_experiment_report-none_iff =
      let same = unmoved_iff input.treatment input.control.claims in
      let quiet = effect_of-none_iff input in
      (
        (λ e.
            let (measured, better, worse) = quiet.0 (sym report-Computed.0 ∙ e) in
            (measured, same.0 (better, worse))),
        (λ (measured, all).
            let (better, worse) = same.1 all in
            report-Computed.0 ∙ quiet.1 (measured, better, worse)),
      )

  -- Where the measurement stands, a report with no changed Claim says that no difference was
  -- observed.
  pub build_harness_experiment_report-unchanged :
      IsMeasured input
      → is_empty report.changed_claims ≡ true
      → report.effect ≡ no_observed_difference
  unfolding changed_claims sort
  build_harness_experiment_report-unchanged measured unchanged =
      build_harness_experiment_report-none_iff.1 (
        measured,
        unchanged-same input.treatment input.control.claims
            (sym (is_empty-sort_by _ _) ∙ (sym (ap is_empty report-Computed.1) ∙ unchanged)),
      )
