-- ===== src/Validity/Schema.antt =====
-- The refinement of `evaluationResultSchema` (src/contracts/parsers.ts), as the messages of the
-- issues that it adds.
use domain_eval_weave.Base.{
  String, Bool, true, false, ◌&&◌, not, Option, none, some, List, [], ◌∷◌, ◌++◌, map, ◌==◌, all,
  map_get, flat_map, sort, template,
}
use domain_eval_weave.Domain.Schema.{issue_if}
use domain_eval_weave.Validity.Evidence.{BehaviorStatus, GateStatus, pass_gate, EvaluationResult}
use domain_eval_weave.Validity.Evaluation.{is_pass, is_valid}

-- `VERIFIED_BEHAVIOR_KEYS`
abbrev pub verified_behavior_keys : List String
verified_behavior_keys =
    "basic_reservation" ∷ "idempotent_replay" ∷ "conflicting_replay_rejected"
    ∷ "no_oversubscription_concurrent" ∷ "terminal_transition_idempotency" ∷ "restart_recovery"
    ∷ "corrupt_state_fail_closed" ∷ "deterministic_snapshot" ∷ []

abbrev pub gates : List String
gates =
    "unauthorized_path_change" ∷ "oracle_hidden_from_candidate" ∷ "candidate_frozen_before_oracle"
    ∷ "candidate_unchanged_after_oracle" ∷ "deployment_fingerprint_match"
    ∷ "carrier_process_healthy" ∷ []

-- Two lists of one length with the same texts in turn.
abbrev pub same_keys : List String → List String → Bool
same_keys [] [] = true
same_keys [] (y ∷ ys) = false
same_keys (x ∷ xs) [] = false
same_keys (x ∷ xs) (y ∷ ys) = x == y && same_keys xs ys

abbrev pub key_name : {A : Type 0} → String × A → String
key_name (name, status) = name

abbrev pub passes : Option (String × BehaviorStatus) → Bool
passes none = false
passes (some (name, status)) = is_pass status

abbrev is_pass_gate : Option (String × GateStatus) → Bool
is_pass_gate (some (name, pass_gate)) = true
is_pass_gate _ = false

abbrev pub is_verified : Option Bool → Bool
is_verified (some true) = true
is_verified _ = false

abbrev pub gate_issues : List (String × GateStatus) → String → List String
gate_issues hard_gates gate =
    issue_if (not (is_pass_gate (map_get key_name gate hard_gates)))
      (template ("verified completion requires " ∷ gate ∷ " to pass" ∷ []))

abbrev pub behaviors_verified : List (String × BehaviorStatus) → Bool
behaviors_verified behaviors =
    same_keys (sort (map key_name behaviors)) (sort verified_behavior_keys)
    && all (λ key. passes (map_get key_name key behaviors)) (sort verified_behavior_keys)

abbrev pub verified_issues : EvaluationResult → List String
verified_issues r =
    issue_if (not (is_valid r.measurement_validity.dimensions.outcome))
      "verified completion requires valid outcome measurement"
    ++ issue_if (not (behaviors_verified r.outcome.behavior_vector))
        "verified completion requires exactly the eight frozen passing behaviors"
    ++ flat_map (gate_issues r.hard_gates) gates

unfoldable pub result_issues : EvaluationResult → List String
result_issues r = elim (is_verified r.outcome.externally_verified_completion) [
  | true ↦ verified_issues r
  | false ↦ []
]
