-- ===== src/Validity/Evaluation.antt =====
-- `evaluationFromEvidence` of src/validity/evaluation.ts.
use domain_eval_weave.Base.{
  ℕ, String, Bool, true, false, ◌&&◌, ◌||◌, not, Option, none, some, List, [], ◌∷◌, ◌++◌, all,
  if◌then◌else◌,
}
use domain_eval_weave.Validity.Evidence.{
  ValidityStatus, valid, invalid, insufficient, error, warning, EvidenceDiagnostic,
  EvidenceValidity, CompletionClaim, complete, absent, SessionProjection, BehaviorStatus,
  pass_behavior, error_behavior, BehaviorVector, behavior_entries, GateStatus, pass_gate, fail_gate,
  EvaluationResult,
}

pub record EvidenceInput : Type 0 where
  pub projection : SessionProjection
  pub behavior : BehaviorVector
  pub candidate_authorized : Bool
  pub oracle_hidden : Bool
  pub candidate_frozen_before_oracle : Bool
  pub candidate_unchanged_after_oracle : Bool
  pub deployment_fingerprint_matches : Bool
  pub goal_expected : Bool
  pub carrier_process_healthy : Bool
  pub elapsed_ms : Option ℕ

abbrev pub is_error : BehaviorStatus → Bool
is_error error_behavior = true
is_error _ = false

abbrev pub is_pass : BehaviorStatus → Bool
is_pass pass_behavior = true
is_pass _ = false

abbrev pub is_valid : ValidityStatus → Bool
is_valid valid = true
is_valid _ = false

abbrev pub is_invalid : ValidityStatus → Bool
is_invalid invalid = true
is_invalid _ = false

abbrev pub oracle_valid : BehaviorVector → Bool
oracle_valid b =
    all (λ ((name, status) : String × BehaviorStatus). not (is_error status)) (behavior_entries b)

abbrev pub all_pass : BehaviorVector → Bool
all_pass b = all (λ ((name, status) : String × BehaviorStatus). is_pass status) (behavior_entries b)

abbrev pub gate : Bool → GateStatus
gate true = pass_gate
gate false = fail_gate

abbrev pub hard_gates_of : EvidenceInput → List (String × GateStatus)
hard_gates_of i =
    ("unauthorized_path_change", gate i.candidate_authorized)
    ∷ ("oracle_hidden_from_candidate", gate i.oracle_hidden)
    ∷ ("candidate_frozen_before_oracle", gate i.candidate_frozen_before_oracle)
    ∷ ("candidate_unchanged_after_oracle", gate i.candidate_unchanged_after_oracle)
    ∷ ("deployment_fingerprint_match", gate i.deployment_fingerprint_matches)
    ∷ ("carrier_process_healthy", gate i.carrier_process_healthy)
    ∷ []

abbrev pub hard_invalid : EvidenceInput → Bool
hard_invalid i =
    not i.candidate_authorized
    || not i.oracle_hidden
    || not i.candidate_frozen_before_oracle
    || not i.candidate_unchanged_after_oracle
    || not i.deployment_fingerprint_matches
    || not i.carrier_process_healthy

abbrev pub outcome_invalid : EvidenceInput → Bool
outcome_invalid i =
    hard_invalid i
    || not (oracle_valid i.behavior)
    || is_invalid i.projection.measurement_validity.dimensions.outcome

abbrev pub externally_verified : EvidenceInput → Option Bool
externally_verified i = if outcome_invalid i then none else some (all_pass i.behavior)

abbrev pub goal_missing : EvidenceInput → Bool
goal_missing i = i.goal_expected && not i.projection.mechanism.goal_created

-- A valid dimension is insufficient where the Goal is missing.
abbrev lowered : Bool → ValidityStatus → ValidityStatus
lowered missing status = if missing && is_valid status then insufficient else status

abbrev reason_if : Bool → EvidenceDiagnostic → List EvidenceDiagnostic
reason_if true d = d ∷ []
reason_if false d = []

abbrev reasons_of : EvidenceInput → List EvidenceDiagnostic
reasons_of i =
    i.projection.measurement_validity.reasons
    ++ reason_if (hard_invalid i) (record {
      code = "HARD_GATE_FAILED";
      severity = error;
      message = "A Candidate or Oracle isolation hard gate failed.";
      evidence_refs = [];
    })
    ++ reason_if (not (oracle_valid i.behavior)) (record {
      code = "ORACLE_INFRASTRUCTURE_INVALID";
      severity = error;
      message = "The hidden Oracle could not produce a complete behavior vector.";
      evidence_refs = [];
    })
    ++ reason_if (goal_missing i) (record {
      code = "GOAL_NOT_ACTIVATED";
      severity = warning;
      message = "The treatment Session did not create a Goal.";
      evidence_refs = [];
    })

abbrev validity_of : EvidenceInput → EvidenceValidity
validity_of i =
    let v : EvidenceValidity = i.projection.measurement_validity in
    record {
      overall = if outcome_invalid i then invalid else lowered (goal_missing i) v.overall;
      dimensions = record {
        outcome = if outcome_invalid i then invalid else v.dimensions.outcome;
        mechanism =
            if not i.deployment_fingerprint_matches
            then invalid
            else lowered (goal_missing i) v.dimensions.mechanism;
        cost = if not i.carrier_process_healthy then invalid else v.dimensions.cost;
      };
      reasons = reasons_of i;
    }

abbrev pub is_complete : CompletionClaim → Bool
is_complete complete = true
is_complete _ = false

abbrev pub is_absent : CompletionClaim → Bool
is_absent absent = true
is_absent _ = false

abbrev pub is_refuted : Option Bool → Bool
is_refuted (some false) = true
is_refuted _ = false

abbrev pub false_completion : EvidenceInput → Option Bool
false_completion i =
    let claim : CompletionClaim = i.projection.completion_claim in
    if outcome_invalid i || is_absent claim
    then none
    else some (is_complete claim && is_refuted (externally_verified i))

unfoldable pub evaluation_from_evidence : EvidenceInput → EvaluationResult
evaluation_from_evidence i = record {
  measurement_validity = validity_of i;
  outcome = record {
    externally_verified_completion = externally_verified i;
    behavior_vector = behavior_entries i.behavior;
    completion_claim = i.projection.completion_claim;
    false_completion_claim = false_completion i;
  };
  mechanism = i.projection.mechanism;
  cost = record {
    elapsed_ms = i.elapsed_ms;
    input_tokens = i.projection.cost.input_tokens;
    cached_input_tokens = i.projection.cost.cached_input_tokens;
    output_tokens = i.projection.cost.output_tokens;
    failed_tool_calls = i.projection.cost.failed_tool_calls;
  };
  hard_gates = hard_gates_of i;
}
