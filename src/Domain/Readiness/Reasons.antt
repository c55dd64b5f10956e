-- ===== src/Domain/Readiness/Reasons.antt =====
-- The reasons of a readiness report (src/domain/readiness.ts): what stands open among the cards,
-- requirements and questions of the closure.
pub mod Laws
use domain_eval_weave.Base.{
  String, Bool, true, false, ◌&&◌, ◌||◌, not, Option, none, some, List, [], ◌∷◌, ◌++◌, map, ◌==◌,
  any, includes, is_empty, is_some, filter, flat_map, map_get, if◌then◌else◌,
}
use domain_eval_weave.Base.Text.{template}
use domain_eval_weave.Base.Result.{Result, ok, err, map_results, ◌>>=◌}
use domain_eval_weave.Platform.{canonical_json_digest}
use domain_eval_weave.Domain.Contracts.{
  DomainPackPointer, Risk, low, medium, high, critical, RequirementStatus, draft, owner_confirmed,
  RequirementChangeSet, NodeKind, contract_claim, proposed_claim, requirement, GraphNode,
}
use domain_eval_weave.Domain.Graph.{Host}
use domain_eval_weave.Domain.Graph.Build.{RequirementInput}
use domain_eval_weave.Domain.Readiness.Documents.{
  EvidenceStatus, confirmed, proposed, unresolved, conflicted, observability_gap,
  is_conflicted_card, is_observability_gap, DomainEvidenceCard, is_open, DomainDecisionQuestion,
  question_json,
}

pub data Severity : Type 0 where
  warning_severity fail_severity : Severity

pub record ReadinessReason : Type 0 where
  pub code : String
  pub message : String
  pub artifact_refs : List String

pub record ReasonWithSeverity : Type 0 where
  pub reason : ReadinessReason
  pub severity : Severity

pub data DimensionStatus : Type 0 where
  pass warning fail : DimensionStatus

pub record ReadinessDimension : Type 0 where
  pub status : DimensionStatus
  pub reasons : List ReadinessReason

abbrev pub is_fail_severity : Severity → Bool
is_fail_severity fail_severity = true
is_fail_severity warning_severity = false

abbrev pub dimension_status : List ReasonWithSeverity → DimensionStatus
dimension_status [] = pass
dimension_status (r ∷ rs) =
    if any (λ s. is_fail_severity s.severity) (r ∷ rs) then fail else warning

unfoldable pub dimension : List ReasonWithSeverity → ReadinessDimension
dimension reasons = record {
  status = dimension_status reasons;
  reasons = map (λ r. r.reason) reasons;
}

abbrev pub severity_for_risk : Risk → Severity
severity_for_risk high = fail_severity
severity_for_risk critical = fail_severity
severity_for_risk _ = warning_severity

pub record CardInput : Type 0 where
  pub ref : String
  pub card : DomainEvidenceCard

pub record QuestionInput : Type 0 where
  pub ref : String
  pub question : DomainDecisionQuestion

-- The objects that stand in the closure.
pub record Closure : Type 0 where
  pub claim_ids : List String
  pub requirement_ids : List String

abbrev is_claim_kind : NodeKind → Bool
is_claim_kind contract_claim = true
is_claim_kind proposed_claim = true
is_claim_kind _ = false

abbrev is_requirement_kind : NodeKind → Bool
is_requirement_kind requirement = true
is_requirement_kind _ = false

abbrev object_ids : (NodeKind → Bool) → List String → List GraphNode → List String
object_ids of_kind closure nodes =
    map (λ n. n.object_id) (filter (λ n. includes n.node_id closure && of_kind n.kind) nodes)

unfoldable pub closure_objects : List GraphNode → List String → Closure
closure_objects nodes closure = record {
  claim_ids = object_ids is_claim_kind closure nodes;
  requirement_ids = object_ids is_requirement_kind closure nodes;
}

abbrev status_text : EvidenceStatus → String
status_text confirmed = "confirmed"
status_text proposed = "proposed"
status_text unresolved = "unresolved"
status_text conflicted = "conflicted"
status_text observability_gap = "observability_gap"

-- `EVIDENCE_${card.status.toUpperCase()}`
abbrev status_code : EvidenceStatus → String
status_code confirmed = "EVIDENCE_CONFIRMED"
status_code proposed = "EVIDENCE_PROPOSED"
status_code unresolved = "EVIDENCE_UNRESOLVED"
status_code conflicted = "EVIDENCE_CONFLICTED"
status_code observability_gap = "EVIDENCE_OBSERVABILITY_GAP"

abbrev card_reason : CardInput → ReasonWithSeverity
card_reason input = record {
  reason = record {
    code = status_code input.card.status;
    message =
        template
          ("Claim " ∷ input.card.claim_id ∷ " remains " ∷ status_text input.card.status ∷ "." ∷ []);
    artifact_refs = input.ref ∷ [];
  };
  severity = severity_for_risk input.card.false_accept_risk;
}

abbrev pub is_unowned : EvidenceStatus → Bool
is_unowned proposed = true
is_unowned unresolved = true
is_unowned _ = false

-- The reasons that the cards of the closure give to one of the dimensions.
unfoldable pub card_reasons :
    (EvidenceStatus → Bool) → List String → List CardInput → List ReasonWithSeverity
card_reasons selects claim_ids cards =
    map (λ input. card_reason input)
      (filter (λ input. includes input.card.claim_id claim_ids && selects input.card.status) cards)

abbrev is_owner_confirmed : RequirementStatus → Bool
is_owner_confirmed owner_confirmed = true
is_owner_confirmed draft = false

abbrev question_severity : Bool → Severity
question_severity true = fail_severity
question_severity false = warning_severity

abbrev open_reason : QuestionInput → ReasonWithSeverity
open_reason input = record {
  reason = record {
    code = "DECISION_QUESTION_OPEN";
    message = template ("Decision question " ∷ input.question.question_id ∷ " remains open." ∷ []);
    artifact_refs = input.ref ∷ [];
  };
  severity = question_severity input.question.blocking;
}

abbrev unconfirmed_reason : RequirementInput → ReasonWithSeverity
unconfirmed_reason input = record {
  reason = record {
    code = "REQUIREMENT_NOT_CONFIRMED";
    message =
        template
          ("Requirement " ∷ input.requirement.requirement_id ∷ " is not owner-confirmed." ∷ []);
    artifact_refs = input.ref ∷ [];
  };
  severity = fail_severity;
}

abbrev invalid_reason : RequirementInput → ReasonWithSeverity
invalid_reason input = record {
  reason = record {
    code = "DECISION_QUESTION_INVALID";
    message = template (
        "Requirement " ∷ input.requirement.requirement_id
        ∷ " has an invalid decision question pointer." ∷ []);
    artifact_refs = input.ref ∷ [];
  };
  severity = fail_severity;
}

abbrev pub question_at : List QuestionInput → String → Option QuestionInput
question_at questions ref = map_get (λ q. q.ref) ref questions

abbrev open_reasons : QuestionInput → List ReasonWithSeverity
open_reasons input = if is_open input.question.status then open_reason input ∷ [] else []

-- What a requirement's pointer to a question adds.
unfoldable pub pointer_reasons :
    Host
    → List QuestionInput
    → RequirementInput
    → DomainPackPointer
    → Result (List ReasonWithSeverity)
pointer_reasons host questions input pointer = elim (question_at questions pointer.ref) [
  | none ↦ ok (invalid_reason input ∷ [])
  | some artifact ↦
      canonical_json_digest host.platform (question_json artifact.question) >>= λ sha256.
      ok (if sha256 == pointer.sha256 then open_reasons artifact else invalid_reason input ∷ [])
]

abbrev pub concat : List (List ReasonWithSeverity) → List ReasonWithSeverity
concat rss = flat_map (λ rs. rs) rss

unfoldable pub requirement_reasons :
    Host → List QuestionInput → List String → RequirementInput → Result (List ReasonWithSeverity)
requirement_reasons host questions requirement_ids input =
    if includes input.requirement.requirement_id requirement_ids
    then (map_results (pointer_reasons host questions input)
          input.requirement.decision_question_refs
        >>= λ rss. ok (
            (if is_owner_confirmed input.requirement.status
              then []
              else unconfirmed_reason input ∷ [])
            ++ concat rss))
    else ok []

-- An open question of no requirement that blocks a Claim of the closure.
abbrev pub blocks : List String → QuestionInput → Bool
blocks claim_ids input =
    not (is_some input.question.requirement_id)
    && any (λ id. includes id claim_ids) input.question.blocked_claim_ids
    && is_open input.question.status

unfoldable pub binding_reasons :
    Host → Closure → List RequirementInput → List QuestionInput → Result (List ReasonWithSeverity)
unfolding requirement_reasons
binding_reasons host closure requirements questions =
    map_results (requirement_reasons host questions closure.requirement_ids) requirements >>= λ rss.
    ok (concat rss ++ map (λ q. open_reason q) (filter (blocks closure.claim_ids) questions))
