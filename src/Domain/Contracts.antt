-- ===== src/Domain/Contracts.antt =====
-- The documents of a domain pack, as src/domain/contracts.ts infers them from its schemas. A fixed
-- `schema_version` is left out, and so is the fixed `state` of a contract.
use domain_eval_weave.Base.{ℕ, String, Option, List}
use domain_eval_weave.Domain.Index.{Index}

pub record DomainPackPointer : Type 0 where
  pub ref : String
  pub sha256 : String

pub record OwnerConfirmationPointer : Type 0 where
  pub confirmation_id : String
  pub sha256 : String

pub data DomainSourceKind : Type 0 where
  owner_statement requirement_source product_doc external_contract code test : DomainSourceKind
  runtime_observation domain_knowledge : DomainSourceKind

pub record DomainSourceRef : Type 0 where
  pub source_id : String
  pub kind : DomainSourceKind
  pub artifact_ref : String
  pub digest : String
  pub locator : Option String

pub data Risk : Type 0 where
  low medium high critical : Risk

pub record ContractClaimRef : Type 0 where
  pub claim_id : String
  pub contract_version : ℕ

pub data TransitionKind : Type 0 where
  supersedes_claim retires_claim : TransitionKind

pub record ClaimTransition : Type 0 where
  pub kind : TransitionKind
  pub predecessor : ContractClaimRef

pub data Lifecycle : Type 0 where
  active retired : Lifecycle

pub record ProductDomainClaim : Type 0 where
  pub claim_id : String
  pub domain_id : String
  pub statement : String
  pub applicability : String
  pub evidence_card : DomainPackPointer
  pub authority_refs : List DomainSourceRef
  pub observation_refs : List DomainSourceRef
  pub false_accept_risk : Risk
  pub false_reject_risk : Risk
  pub dependencies : List ContractClaimRef
  pub lifecycle : Lifecycle
  pub transition : Option ClaimTransition

pub record ProductDomainContract : Type 0 where
  pub contract_id : String
  pub product_id : String
  pub version : ℕ
  pub predecessor : Option DomainPackPointer
  pub source_interview : DomainPackPointer
  pub source_snapshot_digest : String
  pub claims : List ProductDomainClaim
  pub confirmation : OwnerConfirmationPointer
  pub decided_by : String
  pub decided_at : String

pub record ProposedClaim : Type 0 where
  pub claim_id : String
  pub domain_id : String
  pub statement : String
  pub applicability : String
  pub source_ref_ids : List String

pub record ClaimModification : Type 0 where
  pub claim : ContractClaimRef
  pub proposed : ProposedClaim
  pub reason : String

pub record ClaimConflict : Type 0 where
  pub claim : ContractClaimRef
  pub reason : String
  pub source_ref_ids : List String

pub record RequirementEffects : Type 0 where
  pub uses : List ContractClaimRef
  pub preserves : List ContractClaimRef
  pub introduces : List ProposedClaim
  pub modifies : List ClaimModification
  pub deprecates : List ContractClaimRef
  pub conflicts_with : List ClaimConflict

pub data RequirementStatus : Type 0 where
  draft owner_confirmed : RequirementStatus

pub record RequirementChangeSet : Type 0 where
  pub requirement_id : String
  pub version : ℕ
  pub predecessor : Option DomainPackPointer
  pub product_id : String
  pub requirement_refs : List DomainSourceRef
  pub base_contract : DomainPackPointer
  pub effects : RequirementEffects
  pub decision_question_refs : List DomainPackPointer
  pub status : RequirementStatus
  pub confirmation : Option OwnerConfirmationPointer

pub data NodeKind : Type 0 where
  contract_claim historical_claim proposed_claim requirement : NodeKind

pub record GraphNode : Type 0 where
  pub node_id : String
  pub kind : NodeKind
  pub object_id : String
  pub object_version : ℕ
  pub domain_id : Option String

pub data EdgeKind : Type 0 where
  depends_on uses preserves introduces modifies deprecates conflicts_with : EdgeKind
  supersedes retires : EdgeKind

pub record GraphEdge : Type 0 where
  pub from : String
  pub to : String
  pub kind : EdgeKind

pub record ClaimDependencyGraph : Type 0 where
  pub graph_id : String
  pub product_id : String
  pub contract : DomainPackPointer
  pub requirements : List DomainPackPointer
  pub nodes : List GraphNode
  pub edges : List GraphEdge
  pub reverse_index : Index
