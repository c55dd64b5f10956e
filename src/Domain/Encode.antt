-- ===== src/Domain/Encode.antt =====
-- The domain documents as JSON values, the argument of `canonicalJsonDigest`.
use domain_eval_weave.Base.{ℕ, String, Option, none, some, List, [], ◌∷◌, ◌++◌, map, decimal}
use domain_eval_weave.Json.{JsonValue, str, num, finite}
use domain_eval_weave.Json.Build.{array, object, texts, optional_field}
use domain_eval_weave.Domain.Index.{Index}
use domain_eval_weave.Domain.Contracts.{
  DomainPackPointer, OwnerConfirmationPointer, DomainSourceKind, owner_statement,
  requirement_source, product_doc, external_contract, code, test, runtime_observation,
  domain_knowledge, DomainSourceRef, Risk, low, medium, high, critical, ContractClaimRef,
  TransitionKind, supersedes_claim, retires_claim, ClaimTransition, Lifecycle, active, retired,
  ProductDomainClaim, ProductDomainContract, ProposedClaim, ClaimModification, ClaimConflict,
  RequirementEffects, RequirementStatus, draft, owner_confirmed, RequirementChangeSet, NodeKind,
  contract_claim, historical_claim, proposed_claim, requirement, GraphNode, EdgeKind, depends_on,
  uses, preserves, introduces, modifies, deprecates, conflicts_with, supersedes, retires, GraphEdge,
  ClaimDependencyGraph,
}

abbrev pub number : ℕ → JsonValue
number n = num (finite (decimal n))

-- A property that is left out where its value is undefined.
abbrev pub optional_of :
    {A : Type 0} → String → (A → JsonValue) → Option A → List (String × JsonValue)
optional_of key encode none = []
optional_of key encode (some a) = (key, encode a) ∷ []

abbrev pub pointer_json : DomainPackPointer → JsonValue
pointer_json p = object (("ref", str p.ref) ∷ ("sha256", str p.sha256) ∷ [])

abbrev pub confirmation_json : OwnerConfirmationPointer → JsonValue
confirmation_json c =
    object (("confirmation_id", str c.confirmation_id) ∷ ("sha256", str c.sha256) ∷ [])

abbrev source_kind_text : DomainSourceKind → String
source_kind_text owner_statement = "owner_statement"
source_kind_text requirement_source = "requirement"
source_kind_text product_doc = "product_doc"
source_kind_text external_contract = "external_contract"
source_kind_text code = "code"
source_kind_text test = "test"
source_kind_text runtime_observation = "runtime_observation"
source_kind_text domain_knowledge = "domain_knowledge"

abbrev pub source_json : DomainSourceRef → JsonValue
source_json s = object (
    ("source_id", str s.source_id)
    ∷ ("kind", str (source_kind_text s.kind))
    ∷ ("artifact_ref", str s.artifact_ref)
    ∷ ("digest", str s.digest)
    ∷ optional_field "locator" s.locator)

abbrev pub risk_text : Risk → String
risk_text low = "low"
risk_text medium = "medium"
risk_text high = "high"
risk_text critical = "critical"

abbrev claim_ref_json : ContractClaimRef → JsonValue
claim_ref_json r =
    object (("claim_id", str r.claim_id) ∷ ("contract_version", number r.contract_version) ∷ [])

abbrev transition_text : TransitionKind → String
transition_text supersedes_claim = "supersedes"
transition_text retires_claim = "retires"

abbrev transition_json : ClaimTransition → JsonValue
transition_json t =
    object
      (("kind", str (transition_text t.kind)) ∷ ("predecessor", claim_ref_json t.predecessor) ∷ [])

abbrev lifecycle_text : Lifecycle → String
lifecycle_text active = "active"
lifecycle_text retired = "retired"

abbrev domain_claim_json : ProductDomainClaim → JsonValue
domain_claim_json c = object (
    ("claim_id", str c.claim_id)
    ∷ ("domain_id", str c.domain_id)
    ∷ ("statement", str c.statement)
    ∷ ("applicability", str c.applicability)
    ∷ ("evidence_card", pointer_json c.evidence_card)
    ∷ ("authority_refs", array (map (λ s. source_json s) c.authority_refs))
    ∷ ("observation_refs", array (map (λ s. source_json s) c.observation_refs))
    ∷ ("false_accept_risk", str (risk_text c.false_accept_risk))
    ∷ ("false_reject_risk", str (risk_text c.false_reject_risk))
    ∷ ("dependencies", array (map (λ r. claim_ref_json r) c.dependencies))
    ∷ ("lifecycle", str (lifecycle_text c.lifecycle))
    ∷ optional_of "transition" (λ t. transition_json t) c.transition)

unfoldable pub contract_json : ProductDomainContract → JsonValue
contract_json c = object (
    ("schema_version", number 1)
    ∷ ("contract_id", str c.contract_id)
    ∷ ("product_id", str c.product_id)
    ∷ ("version", number c.version)
    ∷ ("source_interview", pointer_json c.source_interview)
    ∷ ("source_snapshot_digest", str c.source_snapshot_digest)
    ∷ ("claims", array (map (λ k. domain_claim_json k) c.claims))
    ∷ ("state", str "issued")
    ∷ ("confirmation", confirmation_json c.confirmation)
    ∷ ("decided_by", str c.decided_by)
    ∷ ("decided_at", str c.decided_at)
    ∷ optional_of "predecessor" (λ p. pointer_json p) c.predecessor)

abbrev proposed_json : ProposedClaim → JsonValue
proposed_json p = object (
    ("claim_id", str p.claim_id)
    ∷ ("domain_id", str p.domain_id)
    ∷ ("statement", str p.statement)
    ∷ ("applicability", str p.applicability)
    ∷ ("source_ref_ids", texts p.source_ref_ids)
    ∷ [])

abbrev modification_json : ClaimModification → JsonValue
modification_json m = object (
    ("claim", claim_ref_json m.claim)
    ∷ ("proposed", proposed_json m.proposed)
    ∷ ("reason", str m.reason)
    ∷ [])

abbrev conflict_json : ClaimConflict → JsonValue
conflict_json c = object (
    ("claim", claim_ref_json c.claim)
    ∷ ("reason", str c.reason)
    ∷ ("source_ref_ids", texts c.source_ref_ids)
    ∷ [])

abbrev effects_json : RequirementEffects → JsonValue
effects_json e = object (
    ("uses", array (map (λ r. claim_ref_json r) e.uses))
    ∷ ("preserves", array (map (λ r. claim_ref_json r) e.preserves))
    ∷ ("introduces", array (map (λ p. proposed_json p) e.introduces))
    ∷ ("modifies", array (map (λ m. modification_json m) e.modifies))
    ∷ ("deprecates", array (map (λ r. claim_ref_json r) e.deprecates))
    ∷ ("conflicts_with", array (map (λ c. conflict_json c) e.conflicts_with))
    ∷ [])

abbrev requirement_status_text : RequirementStatus → String
requirement_status_text draft = "draft"
requirement_status_text owner_confirmed = "owner_confirmed"

unfoldable pub requirement_json : RequirementChangeSet → JsonValue
requirement_json r = object (
    ("schema_version", number 1)
    ∷ ("requirement_id", str r.requirement_id)
    ∷ ("version", number r.version)
    ∷ ("product_id", str r.product_id)
    ∷ ("requirement_refs", array (map (λ s. source_json s) r.requirement_refs))
    ∷ ("base_contract", pointer_json r.base_contract)
    ∷ ("effects", effects_json r.effects)
    ∷ ("decision_question_refs", array (map (λ p. pointer_json p) r.decision_question_refs))
    ∷ ("status", str (requirement_status_text r.status))
    ∷ (optional_of "predecessor" (λ p. pointer_json p) r.predecessor
        ++ optional_of "confirmation" (λ c. confirmation_json c) r.confirmation))

abbrev node_kind_text : NodeKind → String
node_kind_text contract_claim = "contract_claim"
node_kind_text historical_claim = "historical_claim"
node_kind_text proposed_claim = "proposed_claim"
node_kind_text requirement = "requirement"

unfoldable pub node_json : GraphNode → JsonValue
node_json n = object (
    ("node_id", str n.node_id)
    ∷ ("kind", str (node_kind_text n.kind))
    ∷ ("object_id", str n.object_id)
    ∷ ("object_version", number n.object_version)
    ∷ optional_field "domain_id" n.domain_id)

abbrev pub edge_kind_text : EdgeKind → String
edge_kind_text depends_on = "depends_on"
edge_kind_text uses = "uses"
edge_kind_text preserves = "preserves"
edge_kind_text introduces = "introduces"
edge_kind_text modifies = "modifies"
edge_kind_text deprecates = "deprecates"
edge_kind_text conflicts_with = "conflicts_with"
edge_kind_text supersedes = "supersedes"
edge_kind_text retires = "retires"

unfoldable pub graph_edge_json : GraphEdge → JsonValue
graph_edge_json e =
    object (("from", str e.from) ∷ ("to", str e.to) ∷ ("kind", str (edge_kind_text e.kind)) ∷ [])

-- `Object.fromEntries` of the index, as a value.
unfoldable pub index_json : Index → JsonValue
index_json index =
    object (map (λ ((target, sources) : String × List String). (target, texts sources)) index)

unfoldable pub graph_json : ClaimDependencyGraph → JsonValue
unfolding node_json graph_edge_json index_json
graph_json g = object (
    ("schema_version", number 1)
    ∷ ("graph_id", str g.graph_id)
    ∷ ("product_id", str g.product_id)
    ∷ ("contract", pointer_json g.contract)
    ∷ ("requirements", array (map (λ p. pointer_json p) g.requirements))
    ∷ ("nodes", array (map node_json g.nodes))
    ∷ ("edges", array (map graph_edge_json g.edges))
    ∷ ("reverse_index", index_json g.reverse_index)
    ∷ [])
