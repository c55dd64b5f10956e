-- ===== src/Validity/Laws.antt =====
-- `evaluationFromEvidence` (src/validity/evaluation.ts) and the refinement of its result's schema.
use domain_eval_weave.Base.{
  ◌≡◌, refl, sym, ap, ◌∙◌, String, Bool, true, false, ◌&&◌, ◌||◌, not, Option, none, some, List, [],
  ◌∷◌, All, all_iff, ◌↔◌, ◌≢◌, inl, inr, arith, Bool-cases, if◌then◌else◌, sort, sort_by, text_leb,
  flat_map, template,
}
use domain_eval_weave.Validity.Evidence.{
  ValidityStatus, invalid, insufficient, CompletionClaim, complete, BehaviorStatus, pass_behavior,
  error_behavior, BehaviorVector, behavior_entries, GateStatus, pass_gate,
}
use domain_eval_weave.Validity.Evaluation.{
  EvidenceInput, is_error, is_pass, is_invalid, is_valid, oracle_valid, all_pass, hard_gates_of,
  gate, hard_invalid, outcome_invalid, externally_verified, is_complete, is_absent, is_refuted,
  evaluation_from_evidence,
}
use domain_eval_weave.Validity.Schema.{
  behaviors_verified, gate_issues, gates, is_verified, verified_issues, result_issues,
}

abbrev pub Passed : BehaviorVector → Type 0
Passed b = All (λ (e : String × BehaviorStatus). e.1 ≡ pass_behavior) (behavior_entries b)

-- The outcome of an episode can be measured: every hard gate passes, the Oracle has a verdict on
-- every behavior, and the Session's own outcome is not invalid.
pub record IsMeasured (i : EvidenceInput) : Type 0 where
  pub gates : All (λ (g : String × GateStatus). g.1 ≡ pass_gate) (hard_gates_of i)
  pub oracle :
      All (λ (e : String × BehaviorStatus). e.1 ≢ error_behavior) (behavior_entries i.behavior)
  pub session : i.projection.measurement_validity.dimensions.outcome ≢ invalid

gate_iff : (b : Bool) → (gate b ≡ pass_gate) ↔ (b ≡ true)
gate_iff b = ground arith

hard_invalid_iff :
    (i : EvidenceInput)
    → (hard_invalid i ≡ false)
      ↔ All (λ (g : String × GateStatus). g.1 ≡ pass_gate) (hard_gates_of i)
hard_invalid_iff i = ground arith

error_iff : (s : BehaviorStatus) → (not (is_error s) ≡ true) ↔ (s ≢ error_behavior)
error_iff s = ground arith

pass_iff : (s : BehaviorStatus) → (is_pass s ≡ true) ↔ (s ≡ pass_behavior)
pass_iff s = ground arith

All_iff :
    {A : Type 0} {P Q : A → Type 0} (xs : List A) → ((x : A) → P x ↔ Q x) → All P xs ↔ All Q xs
All_iff [] h = ((λ a. tt), (λ a. tt))
All_iff (x ∷ xs) h =
    let ih = All_iff xs h in ((λ a. ((h x).0 a.0, ih.0 a.1)), (λ a. ((h x).1 a.0, ih.1 a.1)))

all_pass_iff : (b : BehaviorVector) → (all_pass b ≡ true) ↔ Passed b
all_pass_iff b =
    let listed = all_iff (λ ((n, s) : String × BehaviorStatus). is_pass s) (behavior_entries b) in
    let each = All_iff (behavior_entries b) (λ (e : String × BehaviorStatus). pass_iff e.1) in
    ((λ h. each.0 (listed.0 h)), (λ h. listed.1 (each.1 h)))

oracle_valid_iff :
    (b : BehaviorVector)
    → (oracle_valid b ≡ true)
      ↔ All (λ (e : String × BehaviorStatus). e.1 ≢ error_behavior) (behavior_entries b)
oracle_valid_iff b =
    let listed =
      all_iff (λ ((n, s) : String × BehaviorStatus). not (is_error s)) (behavior_entries b) in
    let each = All_iff (behavior_entries b) (λ (e : String × BehaviorStatus). error_iff e.1) in
    ((λ h. each.0 (listed.0 h)), (λ h. listed.1 (each.1 h)))

invalid_iff : (s : ValidityStatus) → (is_invalid s ≡ false) ↔ (s ≢ invalid)
invalid_iff s = ground arith

or_false_iff :
    (a b c : Bool) → ((a || not b || c) ≡ false) ↔ ((a ≡ false) × (b ≡ true) × (c ≡ false))
or_false_iff a b c = ground arith

outcome_invalid_iff : (i : EvidenceInput) → (outcome_invalid i ≡ false) ↔ IsMeasured i
outcome_invalid_iff i =
    let parts =
      or_false_iff (hard_invalid i) (oracle_valid i.behavior)
        (is_invalid i.projection.measurement_validity.dimensions.outcome) in
    let gates = hard_invalid_iff i in
    let oracle = oracle_valid_iff i.behavior in
    let session = invalid_iff i.projection.measurement_validity.dimensions.outcome in
    (
      (λ h.
          let (a, b, c) = parts.0 h in
          record { gates = gates.0 a; oracle = oracle.0 b; session = session.0 c }),
      (λ m. parts.1 (gates.1 m.gates, oracle.1 m.oracle, session.1 m.session)),
    )

verified_iff :
    (bad good : Bool)
    → ((if bad then none else some good) ≡ some true) ↔ ((bad ≡ false) × (good ≡ true))
verified_iff bad good = ground arith

not_true : (b : Bool) → b ≢ true → b ≡ false
not_true b h = ground arith

false_iff :
    (bad good : Bool) (c : CompletionClaim)
    → ((if bad || is_absent c
          then none
          else some (is_complete c && is_refuted (if bad then none else some good)))
        ≡ some true)
      ↔ ((bad ≡ false) × (c ≡ complete) × (good ≡ false))
false_iff bad good c = ground arith

-- Completion is verified exactly where the outcome can be measured (every hard gate passes, the
-- Oracle has no error and the Session's outcome is not invalid) and every behavior passes; a claim
-- of completion is false exactly where the outcome can be measured, completion is claimed and not
-- every behavior passes.
pub evaluation_from_evidence_iff :
    (i : EvidenceInput)
    → (((evaluation_from_evidence i).outcome.externally_verified_completion ≡ some true)
        ↔ (IsMeasured i × Passed i.behavior))
      × (((evaluation_from_evidence i).outcome.false_completion_claim ≡ some true)
          ↔ (IsMeasured i × (i.projection.completion_claim ≡ complete) × ¬ Passed i.behavior))
unfolding evaluation_from_evidence
evaluation_from_evidence_iff i =
    let measured = outcome_invalid_iff i in
    let passed = all_pass_iff i.behavior in
    let verified = verified_iff (outcome_invalid i) (all_pass i.behavior) in
    let refuted =
      false_iff (outcome_invalid i) (all_pass i.behavior) i.projection.completion_claim in
    (
      (
        (λ h. let (a, b) = verified.0 h in (measured.0 a, passed.0 b)),
        (λ (m, p). verified.1 (measured.1 m, passed.1 p)),
      ),
      (
        (λ h. let (a, c, b) = refuted.0 h in (measured.0 a, c, λ p. cc (sym b ∙ passed.1 p))),
        (λ (m, c, n).
            refuted.1 (measured.1 m, c, not_true (all_pass i.behavior) (λ t. n (passed.0 t)))),
      ),
    )

behaviors_verified_lem :
    (b : BehaviorVector) → all_pass b ≡ true → behaviors_verified (behavior_entries b) ≡ true
unfolding sort sort_by text_leb
behaviors_verified_lem b h = ground arith

gates-nil :
    (i : EvidenceInput)
    → hard_invalid i ≡ false
    → flat_map (gate_issues (hard_gates_of i)) gates ≡ []
unfolding template
gates-nil i h = ground arith

measured-valid : (s : ValidityStatus) → s ≢ insufficient → is_invalid s ≡ false → is_valid s ≡ true
measured-valid s h k = ground arith

is_verified_iff : (o : Option Bool) → (is_verified o ≡ true) → o ≡ some true
is_verified_iff o h = ground arith

outcome_kept : (bad : Bool) (s : ValidityStatus) → bad ≡ false → (if bad then invalid else s) ≡ s
outcome_kept bad s h = ground arith

verified_issues-nil :
    (i : EvidenceInput)
    → outcome_invalid i ≡ false
    → is_valid i.projection.measurement_validity.dimensions.outcome ≡ true
    → all_pass i.behavior ≡ true
    → hard_invalid i ≡ false
    → verified_issues (evaluation_from_evidence i) ≡ []
unfolding evaluation_from_evidence
verified_issues-nil i measured outcome passed gates_pass =
    let kept =
      outcome_kept (outcome_invalid i) i.projection.measurement_validity.dimensions.outcome
        measured in
    let valid_outcome = ap is_valid kept ∙ outcome in
    let behaviors = behaviors_verified_lem i.behavior passed in
    let no_gates = gates-nil i gates_pass in rw (valid_outcome, behaviors, no_gates) refl

insufficient_invalid : (s : ValidityStatus) → s ≡ insufficient → is_valid s ≡ false
insufficient_invalid s e = ground arith

module _ (i : EvidenceInput) where
  verified-measured :
      externally_verified i ≡ some true → (outcome_invalid i ≡ false) × (all_pass i.behavior ≡ true)
  verified-measured e = (verified_iff (outcome_invalid i) (all_pass i.behavior)).0 e

  -- A verified evaluation of an insufficient Session has an issue.
  verified_issues-insufficient :
      externally_verified i ≡ some true
      → i.projection.measurement_validity.dimensions.outcome ≡ insufficient
      → result_issues (evaluation_from_evidence i) ≢ []
  unfolding result_issues evaluation_from_evidence
  verified_issues-insufficient e low h =
      let (measured, _) = verified-measured e in
      let outcome = i.projection.measurement_validity.dimensions.outcome in
      let kept =
        ap is_valid (outcome_kept (outcome_invalid i) outcome measured)
        ∙ insufficient_invalid outcome low in
      let found = rw (result_issues, e, verified_issues, kept) at h in cc

  verified_issues-sufficient :
      externally_verified i ≡ some true
      → i.projection.measurement_validity.dimensions.outcome ≢ insufficient
      → verified_issues (evaluation_from_evidence i) ≡ []
  verified_issues-sufficient e h =
      let (measured, passed) = verified-measured e in
      let outcome = i.projection.measurement_validity.dimensions.outcome in
      let (gates_pass, _, session) =
        (or_false_iff (hard_invalid i) (oracle_valid i.behavior) (is_invalid outcome)).0 measured in
      verified_issues-nil i measured (measured-valid outcome h session) passed gates_pass

  -- The refinement of the result's schema finds no issue in an evaluation exactly where it does not
  -- verify completion on a Session whose own outcome is insufficient.
  pub result_issues-evaluation_from_evidence_iff :
      (result_issues (evaluation_from_evidence i) ≡ [])
      ↔ ¬ (
          ((evaluation_from_evidence i).outcome.externally_verified_completion ≡ some true)
          × (i.projection.measurement_validity.dimensions.outcome ≡ insufficient))
  unfolding result_issues evaluation_from_evidence
  result_issues-evaluation_from_evidence_iff = (
    (λ h (e, low). verified_issues-insufficient e low h),
    (λ n. elim (Bool-cases (is_verified (externally_verified i))) [
      | inr e ↦ rw (result_issues, e) refl
      | inl e ↦
          let verified = is_verified_iff (externally_verified i) e in
          rw (result_issues, e) (verified_issues-sufficient verified (λ low. n (verified, low)))
    ]),
  )
