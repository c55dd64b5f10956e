-- ===== src/Domain/Readiness/Documents.antt =====
-- The evidence cards, decision questions and requests that a readiness report reads, their
-- refinements (src/domain/contracts.ts), and the JSON values that are digested.
use domain_eval_weave.Base.{
  ℕ, String, Bool, true, false, ◌&&◌, not, Option, none, some, List, [], ◌∷◌, ◌++◌, map, all,
  is_empty, is_unique, is_some, map_get, eqb, if◌then◌else◌,
}
use domain_eval_weave.Base.Result.{Result}
use domain_eval_weave.Json.{JsonValue, str, bool}
use domain_eval_weave.Json.Build.{array, object, texts, optional_field}
use domain_eval_weave.Domain.Contracts.{
  DomainPackPointer, OwnerConfirmationPointer, DomainSourceRef, Risk,
}
use domain_eval_weave.Domain.Encode.{
  number, optional_of, pointer_json, confirmation_json, source_json, risk_text,
}
use domain_eval_weave.Domain.Schema.{
  issue_if, differ, is_domain_knowledge, source_issues, accepted_unless,
}

pub data EvidenceStatus : Type 0 where
  confirmed proposed unresolved conflicted observability_gap : EvidenceStatus

pub record ConflictEvidence : Type 0 where
  pub source_ref_ids : List String
  pub reason : String

pub record DomainEvidenceCard : Type 0 where
  pub card_id : String
  pub revision : ℕ
  pub predecessor : Option DomainPackPointer
  pub product_id : String
  pub domain_id : String
  pub claim_id : String
  pub statement : String
  pub applicability : String
  pub status : EvidenceStatus
  pub source_refs : List DomainSourceRef
  pub authority_ref_ids : List String
  pub observation_ref_ids : List String
  pub false_accept_risk : Risk
  pub false_reject_risk : Risk
  pub confirmation : Option OwnerConfirmationPointer
  pub conflict : Option ConflictEvidence

pub data QuestionStatus : Type 0 where
  open_question resolved : QuestionStatus

pub record DomainDecisionQuestion : Type 0 where
  pub question_id : String
  pub revision : ℕ
  pub predecessor : Option DomainPackPointer
  pub product_id : String
  pub requirement_id : Option String
  pub question : String
  pub reason : String
  pub blocked_claim_ids : List String
  pub risk : Risk
  pub blocking : Bool
  pub status : QuestionStatus
  pub resolution_confirmation : Option OwnerConfirmationPointer

pub record DomainReadinessRequest : Type 0 where
  pub request_id : String
  pub product_id : String
  pub requirements : List DomainPackPointer
  pub requested_by : String
  pub requested_at : String
  pub source_ref : DomainSourceRef

abbrev is_knowledge_source : Option DomainSourceRef → Bool
is_knowledge_source none = false
is_knowledge_source (some s) = is_domain_knowledge s.kind

abbrev confirmed_issues : DomainEvidenceCard → List String
confirmed_issues c =
    issue_if (not (is_some c.confirmation))
      "confirmed cards require an OwnerConfirmationEvent pointer"
    ++ issue_if (is_empty c.authority_ref_ids) "confirmed cards require authority"
    ++ issue_if
        (not (is_empty c.authority_ref_ids)
          && all (λ id. is_knowledge_source (map_get (λ s. s.source_id) id c.source_refs))
              c.authority_ref_ids)
        "domain knowledge alone cannot confirm product truth"

abbrev conflict_issues : List String → Option ConflictEvidence → List String
conflict_issues source_ids none = "conflicted cards require conflict evidence" ∷ []
conflict_issues source_ids (some c) =
    source_issues source_ids "conflict sources must exist" c.source_ref_ids

abbrev is_confirmed_card : EvidenceStatus → Bool
is_confirmed_card confirmed = true
is_confirmed_card _ = false

abbrev pub is_conflicted_card : EvidenceStatus → Bool
is_conflicted_card conflicted = true
is_conflicted_card _ = false

abbrev pub is_observability_gap : EvidenceStatus → Bool
is_observability_gap observability_gap = true
is_observability_gap _ = false

-- The refinement of `domainEvidenceCardSchema`.
unfoldable pub card_issues : DomainEvidenceCard → List String
card_issues c =
    let source_ids : List String = map (λ s. s.source_id) c.source_refs in
    issue_if (not (differ (eqb c.revision 1) (is_some c.predecessor)))
      "only later Evidence Card revisions require a predecessor"
    ++ issue_if (not (is_unique source_ids)) "source ids must be unique"
    ++ source_issues source_ids "authority_ref_ids must reference source_refs" c.authority_ref_ids
    ++ source_issues source_ids "observation_ref_ids must reference source_refs"
        c.observation_ref_ids
    ++ (if is_confirmed_card c.status
        then confirmed_issues c
        else issue_if (is_some c.confirmation)
            "non-confirmed cards cannot carry a confirmation pointer")
    ++ (if is_conflicted_card c.status
        then conflict_issues source_ids c.conflict
        else issue_if (is_some c.conflict) "only conflicted cards may carry conflict evidence")
    ++ issue_if (is_observability_gap c.status && not (is_empty c.observation_ref_ids))
        "observability gaps cannot name an authoritative observation"

abbrev pub is_open : QuestionStatus → Bool
is_open open_question = true
is_open resolved = false

-- The refinement of `domainDecisionQuestionSchema`.
unfoldable pub question_issues : DomainDecisionQuestion → List String
question_issues q =
    issue_if (not (differ (eqb q.revision 1) (is_some q.predecessor)))
      "only later DecisionQuestion revisions require a predecessor"
    ++ issue_if (not (differ (is_open q.status) (is_some q.resolution_confirmation)))
        "resolved questions require confirmation; open questions forbid it"

unfoldable pub parse_domain_evidence_card : DomainEvidenceCard → Result DomainEvidenceCard
unfolding card_issues
parse_domain_evidence_card c = accepted_unless (card_issues c) c

unfoldable pub parse_domain_decision_question :
    DomainDecisionQuestion → Result DomainDecisionQuestion
unfolding question_issues
parse_domain_decision_question q = accepted_unless (question_issues q) q

abbrev question_status_text : QuestionStatus → String
question_status_text open_question = "open"
question_status_text resolved = "resolved"

unfoldable pub question_json : DomainDecisionQuestion → JsonValue
question_json q = object (
    ("schema_version", number 1)
    ∷ ("question_id", str q.question_id)
    ∷ ("revision", number q.revision)
    ∷ ("product_id", str q.product_id)
    ∷ ("question", str q.question)
    ∷ ("reason", str q.reason)
    ∷ ("blocked_claim_ids", texts q.blocked_claim_ids)
    ∷ ("risk", str (risk_text q.risk))
    ∷ ("blocking", bool q.blocking)
    ∷ ("status", str (question_status_text q.status))
    ∷ (optional_of "predecessor" (λ p. pointer_json p) q.predecessor
        ++ optional_field "requirement_id" q.requirement_id
        ++ optional_of "resolution_confirmation" (λ c. confirmation_json c)
            q.resolution_confirmation))

unfoldable pub request_json : DomainReadinessRequest → JsonValue
request_json r = object (
    ("schema_version", number 1)
    ∷ ("request_id", str r.request_id)
    ∷ ("product_id", str r.product_id)
    ∷ ("requirements", array (map (λ p. pointer_json p) r.requirements))
    ∷ ("requested_by", str r.requested_by)
    ∷ ("requested_at", str r.requested_at)
    ∷ ("source_ref", source_json r.source_ref)
    ∷ [])
