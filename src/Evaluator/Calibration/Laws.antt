-- ===== src/Evaluator/Calibration/Laws.antt =====
-- When `calibrateEvaluator` qualifies an Evaluator.
use domain_eval_weave.Base.{
  ◌≡◌, refl, sym, ◌∙◌, ap, subst, ◌↔◌, inl, inr, String, Bool, true, false, ◌&&◌, not, Option, none,
  some, List, [], ◌∷◌, map, filter, any, All, is_empty, flat_map, Bool-cases, is_empty-sort_by,
  sort, arith, ◌==◌, and_left, and_right, and_intro, Pointwise-All, Any,
}
use domain_eval_weave.Base.Result.{
  schema_error, ok, >>=-eq-ok, ok-inj, map_results, map_results-Pointwise, require,
}
use domain_eval_weave.Capsule.Contracts.{
  ResultStatus, pass, fail, inconclusive, measurement_error, EvaluationRun, EvaluatorPackage,
  ExpectedClaim, CaseKind, gold, equivalent, mutant, CalibrationCase, LoadedCapsule,
}
use domain_eval_weave.Capsule.Semantics.{targets}
use domain_eval_weave.Evaluator.Calibration.Report.{
  Mismatch, status_at, status_is, expected_mismatch, add_target_mismatches, case_mismatches,
  CaseResult, case_result, failed_cases, kind_diagnostics, build_report, calibrate_case,
  calibrate_evaluator, CalibrationReport, is_gold, is_equivalent, is_mutant,
  calibration_report_schema,
}
use domain_eval_weave.Platform.{Platform}
use domain_eval_weave.Capsule.Lookup.{find_evaluator}
use domain_eval_weave.Evaluator.Engine.Run.{PersistedEvaluationRun}
use domain_eval_weave.Evaluator.Engine.Candidate.{ReleasedCapsule, Runner, evaluate_candidate}

pub status_is_iff :
    (o : Option ResultStatus) (s : ResultStatus) → (status_is o s ≡ true) ↔ (o ≡ some s)
status_is_iff none s = ground arith
status_is_iff (some pass) pass = ground arith
status_is_iff (some pass) fail = ground arith
status_is_iff (some pass) inconclusive = ground arith
status_is_iff (some pass) measurement_error = ground arith
status_is_iff (some fail) pass = ground arith
status_is_iff (some fail) fail = ground arith
status_is_iff (some fail) inconclusive = ground arith
status_is_iff (some fail) measurement_error = ground arith
status_is_iff (some inconclusive) pass = ground arith
status_is_iff (some inconclusive) fail = ground arith
status_is_iff (some inconclusive) inconclusive = ground arith
status_is_iff (some inconclusive) measurement_error = ground arith
status_is_iff (some measurement_error) pass = ground arith
status_is_iff (some measurement_error) fail = ground arith
status_is_iff (some measurement_error) inconclusive = ground arith
status_is_iff (some measurement_error) measurement_error = ground arith

module _ (run : EvaluationRun) where
  -- A Run in which every Claim of a list has one status.
  abbrev pub AllFail : List String → Type 0
  AllFail ts = All (λ t. status_at run t ≡ some fail) ts

  abbrev pub AllExpected : List ExpectedClaim → Type 0
  AllExpected es = All (λ e. status_at run (ExpectedClaim.claim_id e) ≡ some e.status) es

  add_target_mismatches-ne :
      (ts : List String) (m : Mismatch) (ms : List Mismatch)
      → is_empty (add_target_mismatches run ts (m ∷ ms)) ≡ false
  unfolding add_target_mismatches
  add_target_mismatches-ne [] m ms = refl
  add_target_mismatches-ne (t ∷ ts) m ms =
      elim (Bool-cases (
        not (status_is (status_at run t) fail)
        && not (any (λ n. Mismatch.claim_id n == t) (m ∷ ms)))) [
          | inl e ↦ rw e (add_target_mismatches-ne ts m _)
          | inr e ↦ rw e (add_target_mismatches-ne ts m ms)
        ]

  add_target_mismatches-nil_iff :
      (ts : List String) → (is_empty (add_target_mismatches run ts []) ≡ true) ↔ AllFail ts
  unfolding add_target_mismatches
  add_target_mismatches-nil_iff [] = ground arith
  add_target_mismatches-nil_iff (t ∷ ts) = elim (Bool-cases (status_is (status_at run t) fail)) [
    | inl e ↦
        rw e
          (ground (arith, status_is_iff (status_at run t) fail, add_target_mismatches-nil_iff ts))
    | inr e ↦
        rw (e, add_target_mismatches-ne ts _ [])
          (ground (arith, status_is_iff (status_at run t) fail))
  ]

  expected_mismatch-nil_iff :
      (e : ExpectedClaim)
      → (is_empty (expected_mismatch run e) ≡ true) ↔ (status_at run e.claim_id ≡ some e.status)
  unfolding expected_mismatch
  expected_mismatch-nil_iff e = ground (arith, status_is_iff (status_at run e.claim_id) e.status)

  flat_map-nil_iff :
      (ts : List String) (es : List ExpectedClaim)
      → (is_empty (add_target_mismatches run ts (flat_map (expected_mismatch run) es)) ≡ true)
        ↔ (AllExpected es × AllFail ts)
  unfolding expected_mismatch
  flat_map-nil_iff ts [] = ground (arith, add_target_mismatches-nil_iff ts)
  flat_map-nil_iff ts (e ∷ es) = elim (Bool-cases (status_is (status_at run e.claim_id) e.status)) [
    | inl h ↦
        rw h (
          ground (arith, status_is_iff (status_at run e.claim_id) e.status, flat_map-nil_iff ts es))
    | inr h ↦
        rw (h, add_target_mismatches-ne ts _ _)
          (ground (arith, status_is_iff (status_at run e.claim_id) e.status))
  ]

  -- Every status that a case expects is the Run's, and the Run fails every target of the case.
  abbrev pub IsAsExpected : CalibrationCase → Type 0
  IsAsExpected c = AllExpected c.expected_claims × AllFail (targets c.target_claim_ids)

  -- Nothing of a case is mismatched exactly if the Run is as the case expects.
  pub case_result-matched_iff :
      (c : CalibrationCase) → (CaseResult.matched (case_result run c) ≡ true) ↔ IsAsExpected c
  unfolding case_result case_mismatches
  case_result-matched_iff c = flat_map-nil_iff (targets c.target_claim_ids) c.expected_claims

failed_cases-nil_iff :
    (rs : List CaseResult)
    → (is_empty (failed_cases rs) ≡ true) ↔ All (λ r. CaseResult.matched r ≡ true) rs
unfolding failed_cases sort
failed_cases-nil_iff rs = rw (is_empty-sort_by _ _) (all_matched rs)
  where
    all_matched :
        (rs : List CaseResult)
        → (is_empty (map (λ r. CaseResult.case_id r) (filter (λ r. not (CaseResult.matched r)) rs))
            ≡ true)
          ↔ All (λ r. CaseResult.matched r ≡ true) rs
    all_matched [] = ground arith
    all_matched (r ∷ rest) = ground (arith, all_matched rest)

any-kind_iff :
    (test : CaseKind → Bool) (k : CaseKind)
    → ((j : CaseKind) → (test j ≡ true) ↔ (j ≡ k))
    → (cs : List CalibrationCase)
    → (any (λ c. test (CalibrationCase.kind c)) cs ≡ true)
      ↔ Any (λ c. CalibrationCase.kind c ≡ k) cs
any-kind_iff test k h [] = ground arith
any-kind_iff test k h (c ∷ cs) = ground (arith, h c.kind, any-kind_iff test k h cs)

is_gold_iff : (k : CaseKind) → (is_gold k ≡ true) ↔ (k ≡ gold)
is_gold_iff gold = ground arith
is_gold_iff equivalent = ground arith
is_gold_iff mutant = ground arith

is_equivalent_iff : (k : CaseKind) → (is_equivalent k ≡ true) ↔ (k ≡ equivalent)
is_equivalent_iff gold = ground arith
is_equivalent_iff equivalent = ground arith
is_equivalent_iff mutant = ground arith

is_mutant_iff : (k : CaseKind) → (is_mutant k ≡ true) ↔ (k ≡ mutant)
is_mutant_iff gold = ground arith
is_mutant_iff equivalent = ground arith
is_mutant_iff mutant = ground arith

-- There is a case of every kind.
abbrev pub HasKinds : List CalibrationCase → Type 0
HasKinds cs =
    Any (λ c. CalibrationCase.kind c ≡ gold) cs
    × Any (λ c. CalibrationCase.kind c ≡ equivalent) cs
    × Any (λ c. CalibrationCase.kind c ≡ mutant) cs

kind_diagnostics-nil_iff :
    (cs : List CalibrationCase) → (is_empty (kind_diagnostics cs) ≡ true) ↔ HasKinds cs
unfolding kind_diagnostics
kind_diagnostics-nil_iff cs = ground (
  arith,
  any-kind_iff is_gold gold is_gold_iff cs,
  any-kind_iff is_equivalent equivalent is_equivalent_iff cs,
  any-kind_iff is_mutant mutant is_mutant_iff cs,
)

build_report-qualified_iff :
    (released : ReleasedCapsule) (evaluator : EvaluatorPackage) (cs : List CalibrationCase)
    (rs : List CaseResult)
    → ((build_report released evaluator cs rs).qualified ≡ true)
      ↔ (HasKinds cs × All (λ r. CaseResult.matched r ≡ true) rs)
unfolding build_report
build_report-qualified_iff released evaluator cs rs =
    let failed = failed_cases-nil_iff rs in
    let kinds = kind_diagnostics-nil_iff cs in
    (
      (λ h. (kinds.0 (and_right _ _ h), failed.0 (and_left _ _ h))),
      (λ (k, m). and_intro _ _ (failed.1 m) (kinds.1 k)),
    )

module _ (p : Platform) (capsule : LoadedCapsule) (released : ReleasedCapsule)
    (evaluator_ref : String) (runner : Runner) where
  -- The evaluation of a case's Candidate gives a Run that is as the case expects.
  abbrev pub IsMatched : EvaluatorPackage → CalibrationCase → Type 0
  IsMatched evaluator c =
      (evaluated : PersistedEvaluationRun) × (evaluate_candidate p capsule released evaluator_ref
          evaluator.requirement_id c.candidate_id runner
        ≡ ok evaluated)
      × IsAsExpected evaluated.run c

  calibrate_case-matched_iff :
      (evaluator : EvaluatorPackage) (c : CalibrationCase) (r : CaseResult)
      → calibrate_case p capsule released evaluator_ref runner evaluator c ≡ ok r
      → (r.matched ≡ true) ↔ IsMatched evaluator c
  unfolding calibrate_case
  calibrate_case-matched_iff evaluator c r h =
      let (evaluated, ran, same) =
        >>=-eq-ok
          (evaluate_candidate p capsule released evaluator_ref evaluator.requirement_id
            c.candidate_id runner)
          _ h in
      let result : case_result evaluated.run c ≡ r = ok-inj _ _ same in
      (
        (λ m. (
          evaluated,
          ran,
          (case_result-matched_iff evaluated.run c).0 (ap (λ x. CaseResult.matched x) result ∙ m),
        )),
        (λ (other, ran₂, expected).
            let unique : other ≡ evaluated = ok-inj _ _ (sym ran₂ ∙ ran) in
            sym (ap (λ x. CaseResult.matched x) result)
            ∙ (case_result-matched_iff evaluated.run c).1
                (subst (λ x. IsAsExpected (PersistedEvaluationRun.run x) c) unique expected)),
      )

  -- An Evaluator that was calibrated is qualified exactly if the Capsule has a gold, an
  -- equivalent and a mutant case, and the evaluation of the Candidate of every case has each
  -- status that the case expects and fails each of its targets.
  pub calibrate_evaluator-qualified_iff :
      (report : CalibrationReport)
      → calibrate_evaluator p capsule released evaluator_ref runner ≡ ok report
      → (evaluator : EvaluatorPackage) × (find_evaluator capsule evaluator_ref ≡ ok evaluator)
        × ((report.qualified ≡ true)
            ↔ (HasKinds capsule.cases × All (IsMatched evaluator) capsule.cases))
  unfolding calibrate_evaluator
  calibrate_evaluator-qualified_iff report h =
      let (evaluator, found, h₁) = >>=-eq-ok (find_evaluator capsule evaluator_ref) _ h in
      let (results, ran, h₂) =
        >>=-eq-ok
          (map_results (calibrate_case p capsule released evaluator_ref runner evaluator)
            capsule.cases)
          _ h₁ in
      let built : CalibrationReport = build_report released evaluator capsule.cases results in
      let (checked, fits, h₃) =
        >>=-eq-ok (require (calibration_report_schema built) (schema_error "CalibrationReport")) _
          h₂ in
      let same : built.qualified ≡ report.qualified =
        ap (λ x. CalibrationReport.qualified x) (ok-inj _ _ h₃) in
      let matched =
        Pointwise-All capsule.cases results (λ c r e. calibrate_case-matched_iff evaluator c r e)
          (map_results-Pointwise _ capsule.cases results ran) in
      let qualified = build_report-qualified_iff released evaluator capsule.cases results in
      (
        evaluator,
        found,
        (
          (λ q. let (kinds, all) = qualified.0 (same ∙ q) in (kinds, matched.0 all)),
          (λ (kinds, all). sym same ∙ qualified.1 (kinds, matched.1 all)),
        ),
      )
