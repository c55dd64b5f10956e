-- ===== src/Validity/Evidence.antt =====
-- The evidence that an evaluation reads, and its result: `SessionProjection` of
-- src/projector/projector.ts, `BehaviorVector` of src/oracle/ledger.ts and `EvaluationResult` of
-- src/contracts/parsers.ts. Fields with one value are left out, and the
-- mechanism of a result is a projection's, whose fields are never null.
use domain_eval_weave.Base.{ℕ, String, Bool, Option, List, [], ◌∷◌}

pub data ValidityStatus : Type 0 where
  valid invalid insufficient : ValidityStatus

pub data DiagnosticSeverity : Type 0 where
  error warning info : DiagnosticSeverity

pub record EvidenceDiagnostic : Type 0 where
  pub code : String
  pub severity : DiagnosticSeverity
  pub message : String
  pub evidence_refs : List String

pub record ValidityDimensions : Type 0 where
  pub outcome : ValidityStatus
  pub mechanism : ValidityStatus
  pub cost : ValidityStatus

pub record EvidenceValidity : Type 0 where
  pub overall : ValidityStatus
  pub dimensions : ValidityDimensions
  pub reasons : List EvidenceDiagnostic

pub data CompletionClaim : Type 0 where
  complete blocked absent : CompletionClaim

pub data GoalPhase : Type 0 where
  complete_goal blocked_goal paused_goal active_goal no_goal : GoalPhase

pub record Mechanism : Type 0 where
  pub goal_created : Bool
  pub goal_rounds_started : ℕ
  pub goal_terminal_phase : GoalPhase
  pub tool_calls : List (String × ℕ)
  pub turns : ℕ
  pub steps : ℕ

pub record SessionCost : Type 0 where
  pub input_tokens : Option ℕ
  pub cached_input_tokens : Option ℕ
  pub output_tokens : Option ℕ
  pub failed_tool_calls : ℕ

pub record Deployment : Type 0 where
  pub common_tool_schema_sha256 : String
  pub full_tool_schema_sha256 : String
  pub tool_names : List String

pub record SessionProjection : Type 0 where
  pub measurement_validity : EvidenceValidity
  pub prompt_isolation_valid : Bool
  pub completion_claim : CompletionClaim
  pub mechanism : Mechanism
  pub cost : SessionCost
  pub deployment : Deployment

pub data BehaviorStatus : Type 0 where
  pass_behavior fail_behavior error_behavior : BehaviorStatus

pub record BehaviorVector : Type 0 where
  pub basic_reservation : BehaviorStatus
  pub idempotent_replay : BehaviorStatus
  pub conflicting_replay_rejected : BehaviorStatus
  pub no_oversubscription_concurrent : BehaviorStatus
  pub terminal_transition_idempotency : BehaviorStatus
  pub restart_recovery : BehaviorStatus
  pub corrupt_state_fail_closed : BehaviorStatus
  pub deterministic_snapshot : BehaviorStatus

-- `Object.entries(behavior)`
abbrev pub behavior_entries : BehaviorVector → List (String × BehaviorStatus)
behavior_entries b =
    ("basic_reservation", b.basic_reservation)
    ∷ ("idempotent_replay", b.idempotent_replay)
    ∷ ("conflicting_replay_rejected", b.conflicting_replay_rejected)
    ∷ ("no_oversubscription_concurrent", b.no_oversubscription_concurrent)
    ∷ ("terminal_transition_idempotency", b.terminal_transition_idempotency)
    ∷ ("restart_recovery", b.restart_recovery)
    ∷ ("corrupt_state_fail_closed", b.corrupt_state_fail_closed)
    ∷ ("deterministic_snapshot", b.deterministic_snapshot)
    ∷ []

pub data GateStatus : Type 0 where
  pass_gate fail_gate unknown_gate : GateStatus

pub record Outcome : Type 0 where
  pub externally_verified_completion : Option Bool
  pub behavior_vector : List (String × BehaviorStatus)
  pub completion_claim : CompletionClaim
  pub false_completion_claim : Option Bool

pub record ResultCost : Type 0 where
  pub elapsed_ms : Option ℕ
  pub input_tokens : Option ℕ
  pub cached_input_tokens : Option ℕ
  pub output_tokens : Option ℕ
  pub failed_tool_calls : ℕ

pub record EvaluationResult : Type 0 where
  pub measurement_validity : EvidenceValidity
  pub outcome : Outcome
  pub mechanism : Mechanism
  pub cost : ResultCost
  pub hard_gates : List (String × GateStatus)
