-- ===== src/Tests/Validity.antt =====
-- A Session that claims completion, with a passing and a failing Oracle.
use domain_eval_weave.Base.{◌≡◌, ◌↔◌, refl, true, some, none, [], ◌∷◌}
use domain_eval_weave.Validity.Evidence.{
  valid, insufficient, complete, complete_goal, SessionProjection, BehaviorStatus, pass_behavior,
  fail_behavior,
}
use domain_eval_weave.Validity.Evaluation.{EvidenceInput, evaluation_from_evidence}
use domain_eval_weave.Validity.Schema.{result_issues}
use domain_eval_weave.Validity.Laws.{
  IsMeasured, Passed, evaluation_from_evidence_iff, result_issues-evaluation_from_evidence_iff,
}

abbrev projection : SessionProjection
projection = record {
  measurement_validity = record {
    overall = valid;
    dimensions = record { outcome = valid; mechanism = valid; cost = insufficient };
    reasons = [];
  };
  prompt_isolation_valid = true;
  completion_claim = complete;
  mechanism = record {
    goal_created = true;
    goal_rounds_started = 1;
    goal_terminal_phase = complete_goal;
    tool_calls = ("bash", 4) ∷ [];
    turns = 2;
    steps = 7;
  };
  cost = record {
    input_tokens = some 900;
    cached_input_tokens = none;
    output_tokens = some 120;
    failed_tool_calls = 1;
  };
  deployment = record {
    common_tool_schema_sha256 = "";
    full_tool_schema_sha256 = "";
    tool_names = "bash" ∷ [];
  };
}

abbrev with_recovery : BehaviorStatus → EvidenceInput
with_recovery recovery = record {
  projection = projection;
  behavior = record {
    basic_reservation = pass_behavior;
    idempotent_replay = pass_behavior;
    conflicting_replay_rejected = pass_behavior;
    no_oversubscription_concurrent = pass_behavior;
    terminal_transition_idempotency = pass_behavior;
    restart_recovery = recovery;
    corrupt_state_fail_closed = pass_behavior;
    deterministic_snapshot = pass_behavior;
  };
  candidate_authorized = true;
  oracle_hidden = true;
  candidate_frozen_before_oracle = true;
  candidate_unchanged_after_oracle = true;
  deployment_fingerprint_matches = true;
  goal_expected = true;
  carrier_process_healthy = true;
  elapsed_ms = some 1500;
}

passes_verified :
    (evaluation_from_evidence (with_recovery pass_behavior)).outcome.externally_verified_completion
    ≡ some true
unfolding evaluation_from_evidence
passes_verified = refl

fails_refuted :
    (evaluation_from_evidence (with_recovery fail_behavior)).outcome.false_completion_claim
    ≡ some true
unfolding evaluation_from_evidence
fails_refuted = refl

evaluation_from_evidence_iff_example :
    (((evaluation_from_evidence (with_recovery fail_behavior)
          ).outcome.externally_verified_completion
        ≡ some true)
      ↔ (IsMeasured (with_recovery fail_behavior) × Passed (with_recovery fail_behavior).behavior))
    × (((evaluation_from_evidence (with_recovery fail_behavior)).outcome.false_completion_claim
          ≡ some true)
        ↔ (IsMeasured (with_recovery fail_behavior)
            × ((with_recovery fail_behavior).projection.completion_claim ≡ complete)
            × ¬ Passed (with_recovery fail_behavior).behavior))
evaluation_from_evidence_iff_example = evaluation_from_evidence_iff (with_recovery fail_behavior)

result_issues-evaluation_from_evidence_iff_example :
    (result_issues (evaluation_from_evidence (with_recovery pass_behavior)) ≡ [])
    ↔ ¬ (
        ((evaluation_from_evidence (with_recovery pass_behavior)
            ).outcome.externally_verified_completion
          ≡ some true)
        × ((with_recovery pass_behavior).projection.measurement_validity.dimensions.outcome
            ≡ insufficient))
result_issues-evaluation_from_evidence_iff_example =
    result_issues-evaluation_from_evidence_iff (with_recovery pass_behavior)
