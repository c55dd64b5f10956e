-- ===== src/Domain/Readiness/Report.antt =====
-- `buildDomainTruthReadiness` (src/domain/readiness.ts), on documents of the right shape.
pub mod Laws
use domain_eval_weave.Base.{
  String, Bool, true, false, ◌&&◌, ◌||◌, not, Option, none, some, List, [], ◌∷◌, ◌++◌, map, ◌==◌,
  any, all, is_empty, is_unique, flat_map, map_get, sort_by, if◌then◌else◌,
}
use domain_eval_weave.Base.Text.{template}
use domain_eval_weave.Base.Result.{
  Failure, plain_error, schema_error, Result, ok, err, require, or_throw, map_results, ◌>>=◌, ◌>>◌,
}
use domain_eval_weave.Json.{JsonValue}
use domain_eval_weave.Platform.{canonical_json_digest}
use domain_eval_weave.Domain.Contracts.{
  DomainPackPointer, RequirementChangeSet, ClaimDependencyGraph,
}
use domain_eval_weave.Domain.Encode.{requirement_json, graph_json}
use domain_eval_weave.Domain.Schema.{
  issue_if, differ, accepted_unless, parse_pointer, parse_requirement_change_set,
  parse_claim_dependency_graph, is_package_relative, pointer_fits, pointers_fit, node_id_matches,
}
use domain_eval_weave.Capsule.Schema.Patterns.{id_matches, code_matches, non_empty}
use domain_eval_weave.Domain.Graph.{Host}
use domain_eval_weave.Domain.Graph.Assert.{assert_claim_dependency_graph_semantics}
use domain_eval_weave.Domain.Graph.Build.{
  RequirementInput, parse_input, requirement_pointer, sorted_pointers,
}
use domain_eval_weave.Domain.Readiness.Documents.{
  DomainReadinessRequest, request_json, is_conflicted_card, is_observability_gap,
  parse_domain_evidence_card, parse_domain_decision_question,
}
use domain_eval_weave.Domain.Readiness.Closure.{Requested, requested_closure}
use domain_eval_weave.Domain.Readiness.Reasons.{
  ReasonWithSeverity, DimensionStatus, pass, warning, fail, ReadinessDimension, ReadinessReason,
  dimension, CardInput, QuestionInput, Closure, closure_objects, card_reasons, is_unowned,
  binding_reasons,
}

pub record ReadinessInput : Type 0 where
  pub contract : DomainPackPointer
  pub requirements : List RequirementInput
  pub graph_ref : String
  pub graph : ClaimDependencyGraph
  pub evidence_cards : List CardInput
  pub decision_questions : List QuestionInput
  pub request_ref : String
  pub request : DomainReadinessRequest
  pub generated_at : String

pub record ReadinessDimensions : Type 0 where
  pub source_integrity : ReadinessDimension
  pub owner_confirmation : ReadinessDimension
  pub conflict_state : ReadinessDimension
  pub observability : ReadinessDimension
  pub requirement_binding : ReadinessDimension
  pub impact_closure : ReadinessDimension
  pub artifact_replay : ReadinessDimension

pub data Overall : Type 0 where
  green yellow red : Overall

pub record DomainTruthReadiness : Type 0 where
  pub report_id : String
  pub product_id : String
  pub contract : DomainPackPointer
  pub requirements : List DomainPackPointer
  pub graph : DomainPackPointer
  pub request : DomainPackPointer
  pub requested_closure_node_ids : List String
  pub dimensions : ReadinessDimensions
  pub overall : Overall
  pub generated_at : String

-- `Object.values(dimensions)`
abbrev pub all_dimensions : ReadinessDimensions → List ReadinessDimension
all_dimensions d =
    d.source_integrity ∷ d.owner_confirmation ∷ d.conflict_state ∷ d.observability
    ∷ d.requirement_binding ∷ d.impact_closure ∷ d.artifact_replay ∷ []

abbrev pub is_fail : DimensionStatus → Bool
is_fail fail = true
is_fail _ = false

abbrev pub is_warning : DimensionStatus → Bool
is_warning warning = true
is_warning _ = false

abbrev pub is_pass : DimensionStatus → Bool
is_pass pass = true
is_pass _ = false

unfoldable pub overall_of : ReadinessDimensions → Overall
overall_of d =
    if any (λ k. is_fail k.status) (all_dimensions d)
    then red
    else if any (λ k. is_warning k.status) (all_dimensions d)
    then yellow
    else green

abbrev same_overall : Overall → Overall → Bool
same_overall green green = true
same_overall yellow yellow = true
same_overall red red = true
same_overall _ _ = false

abbrev overall_text : Overall → String
overall_text green = "green"
overall_text yellow = "yellow"
overall_text red = "red"

abbrev dimension_issues : ReadinessDimension → List String
dimension_issues d =
    issue_if (differ (is_pass d.status) (is_empty d.reasons))
      "pass dimensions have no reasons; non-pass dimensions require reasons"

-- The refinements of `domainTruthReadinessSchema`.
unfoldable pub report_issues : DomainTruthReadiness → List String
unfolding overall_of
report_issues r =
    issue_if (is_empty r.requested_closure_node_ids) "too small"
    ++ issue_if (not (is_unique r.requested_closure_node_ids))
        "requested closure node ids must be unique"
    ++ flat_map (λ d. dimension_issues d) (all_dimensions r.dimensions)
    ++ issue_if (not (same_overall r.overall (overall_of r.dimensions)))
        (template ("overall must be " ∷ overall_text (overall_of r.dimensions) ∷ []))

-- `readinessReasonSchema`
abbrev reason_fits : ReadinessReason → Bool
reason_fits reason =
    code_matches reason.code
    && non_empty reason.message
    && all is_package_relative reason.artifact_refs

-- The patterns and unique arrays of `domainTruthReadinessSchema`, but for its date.
unfoldable pub report_fits : DomainTruthReadiness → Bool
report_fits r =
    id_matches r.report_id
    && id_matches r.product_id
    && pointer_fits r.contract
    && pointers_fit r.requirements
    && pointer_fits r.graph
    && pointer_fits r.request
    && all node_id_matches r.requested_closure_node_ids
    && all (λ d. all reason_fits (ReadinessDimension.reasons d)) (all_dimensions r.dimensions)

unfoldable pub parse_domain_truth_readiness : DomainTruthReadiness → Result DomainTruthReadiness
unfolding report_issues report_fits
parse_domain_truth_readiness r =
    require (report_fits r) (schema_error "invalid readiness report")
    >> accepted_unless (report_issues r) r

abbrev parse_card : CardInput → Result CardInput
parse_card input =
    parse_domain_evidence_card input.card >>= λ card. ok (record input { card = card })

abbrev parse_question : QuestionInput → Result QuestionInput
parse_question input = parse_domain_decision_question input.question >>= λ question.
    ok (record input { question = question })

abbrev binding_error : Failure
binding_error = plain_error "readiness request does not bind an exact Requirement artifact"

-- The requirement artifact that a pointer of the request binds.
unfoldable pub bind_requirement :
    Host → List RequirementInput → DomainPackPointer → Result Requested
bind_requirement host requirements pointer =
    or_throw (map_get (λ a. a.ref) pointer.ref requirements) binding_error >>= λ artifact.
    canonical_json_digest host.platform (requirement_json artifact.requirement) >>= λ sha256.
    require (sha256 == pointer.sha256) binding_error
    >> ok (record {
      id = artifact.requirement.requirement_id;
      version = artifact.requirement.version;
    })

-- The closure of the request.
unfoldable pub closure_of_request :
    Host → ReadinessInput → List RequirementInput → Result (List String)
closure_of_request host input requirements =
    require (input.request.product_id == input.graph.product_id)
      (plain_error "readiness request product drifted")
    >> map_results (bind_requirement host requirements) input.request.requirements
    >>= λ requested. requested_closure input.graph requested

abbrev pub dimensions_of : Closure → List CardInput → List ReasonWithSeverity → ReadinessDimensions
dimensions_of closure cards binding = record {
  source_integrity = dimension [];
  owner_confirmation = dimension (card_reasons is_unowned closure.claim_ids cards);
  conflict_state = dimension (card_reasons is_conflicted_card closure.claim_ids cards);
  observability = dimension (card_reasons is_observability_gap closure.claim_ids cards);
  requirement_binding = dimension binding;
  impact_closure = dimension [];
  artifact_replay = dimension [];
}

abbrev artifact_pointer : Host → String → JsonValue → Result DomainPackPointer
artifact_pointer host ref value =
    canonical_json_digest host.platform value >>= λ sha256. parse_pointer ref sha256

abbrev report_of :
    Host
    → ReadinessInput
    → List String
    → ReadinessDimensions
    → List DomainPackPointer
    → DomainPackPointer
    → DomainPackPointer
    → DomainTruthReadiness
report_of host input closure dimensions pointers graph request = record {
  report_id = template ("report-" ∷ input.request.request_id ∷ []);
  product_id = input.graph.product_id;
  contract = input.contract;
  requirements = sorted_pointers host pointers;
  graph = graph;
  request = request;
  requested_closure_node_ids = closure;
  dimensions = dimensions;
  overall = overall_of dimensions;
  generated_at = input.generated_at;
}

-- `parseDomainTruthReadiness({ ... })`, from the closure and the dimensions.
unfoldable pub finish_report :
    Host → ReadinessInput → List String → ReadinessDimensions → Result DomainTruthReadiness
finish_report host input closure dimensions =
    map_results (requirement_pointer host) input.requirements >>= λ pointers.
    artifact_pointer host input.graph_ref (graph_json input.graph) >>= λ graph.
    artifact_pointer host input.request_ref (request_json input.request) >>= λ request.
    parse_domain_truth_readiness (report_of host input closure dimensions pointers graph request)

unfoldable pub build_domain_truth_readiness : Host → ReadinessInput → Result DomainTruthReadiness
build_domain_truth_readiness host input =
    parse_pointer input.contract.ref input.contract.sha256 >>= λ contract.
    map_results parse_input input.requirements >>= λ requirements.
    parse_claim_dependency_graph input.graph >>= λ graph.
    assert_claim_dependency_graph_semantics host graph
    >> closure_of_request host input requirements
    >>= λ node_ids. map_results parse_card input.evidence_cards >>= λ cards.
        map_results parse_question input.decision_questions >>= λ questions.
        let closure : Closure = closure_objects graph.nodes node_ids in
        binding_reasons host closure requirements questions >>= λ binding.
        finish_report host input node_ids (dimensions_of closure cards binding)
