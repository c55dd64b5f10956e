-- ===== src/Capsule/Contracts.antt =====
-- The documents of a Capsule, as packages/weave/src/capsule/contracts.ts infers them from its
-- schemas. A fixed `schema_version` is left out.
mod Run
pub use Run.{
  Diagnostic, ClaimResult, Axis, requirement_delta, domain_preservation, ResultStatus, pass, fail,
  inconclusive, measurement_error, MeasurementValidity, valid, insufficient, invalid, Verdict,
  accept, reject, undecided, ExecutionRecord, EvaluatorId, EvaluationRun,
}
use domain_eval_weave.Base.{ℕ, ℤ, String, Bool, Option, List}
use domain_eval_weave.Json.{JsonValue}

pub data SourceKind : Type 0 where
  owner_statement requirement product_doc external_contract code test : SourceKind
  runtime_observation domain_knowledge : SourceKind

pub record CapsuleSource : Type 0 where
  pub source_id : String
  pub kind : SourceKind
  pub path : String
  pub description : Option String
  pub license : Option String

pub record CapsuleCandidate : Type 0 where
  pub candidate_id : String
  pub path : String
  pub command : List String
  pub timeout_ms : ℕ
  pub max_output_bytes : ℕ

pub record CapsuleManifest : Type 0 where
  pub capsule_id : String
  pub version : String
  pub title : String
  pub domain : String
  pub sources : List CapsuleSource
  pub requirements : List String
  pub evaluators : List String
  pub candidates : List CapsuleCandidate
  pub cases : List String

pub record Confirmation : Type 0 where
  pub owner_id : String
  pub projection_sha256 : String

pub data ClaimStatus : Type 0 where
  confirmed proposed unresolved conflicted observability_gap : ClaimStatus

pub data Risk : Type 0 where
  low medium high critical : Risk

pub record Claim : Type 0 where
  pub claim_id : String
  pub statement : String
  pub applicability : String
  pub status : ClaimStatus
  pub source_ids : List String
  pub false_accept_risk : Risk
  pub false_reject_risk : Risk
  pub confirmation : Option Confirmation
  pub conflict_source_ids : Option (List String)

pub record Owner : Type 0 where
  pub owner_id : String
  pub display_name : String

pub record CapsuleDomain : Type 0 where
  pub domain_id : String
  pub version : String
  pub owners : List Owner
  pub claims : List Claim

pub data Relation : Type 0 where
  uses preserves introduces modifies deprecates conflicts_with : Relation

pub record RequirementEdge : Type 0 where
  pub claim_id : String
  pub relation : Relation
  pub required : Bool

pub record RequirementDelta : Type 0 where
  pub requirement_id : String
  pub version : String
  pub title : String
  pub source_ids : List String
  pub edges : List RequirementEdge

-- A step of a check's path: an array index or an object key.
pub data Segment : Type 0 where
  index : ℕ → Segment
  key : String → Segment

pub data CheckKind : Type 0 where
  exit_code_equals : ℤ → CheckKind
  json_path_equals : List Segment → JsonValue → CheckKind
  json_array_count_equals : List Segment → List (String × JsonValue) → ℕ → CheckKind

pub record EvaluatorCheck : Type 0 where
  pub check_id : String
  pub claim_id : String
  pub kind : CheckKind

pub record EvaluatorPackage : Type 0 where
  pub evaluator_id : String
  pub version : String
  pub requirement_id : String
  pub description : Option String
  pub checks : List EvaluatorCheck

pub record ExpectedClaim : Type 0 where
  pub claim_id : String
  pub status : Run.ResultStatus

pub data CaseKind : Type 0 where
  gold equivalent mutant : CaseKind

pub record CalibrationCase : Type 0 where
  pub case_id : String
  pub kind : CaseKind
  pub candidate_id : String
  pub target_claim_ids : Option (List String)
  pub expected_claims : List ExpectedClaim

pub record ReleaseEntry : Type 0 where
  pub path : String
  pub sha256 : String
  pub size : ℕ

pub record DerivedEdge : Type 0 where
  pub requirement_id : String
  pub claim_id : String
  pub relation : Relation
  pub required : Bool

pub record CapsuleRelease : Type 0 where
  pub capsule_id : String
  pub capsule_version : String
  pub entries : List ReleaseEntry
  pub claims : List String
  pub requirement_edges : List DerivedEdge

-- A Capsule as `loadCapsule` returns it (packages/weave/src/capsule/loader.ts).
pub record LoadedCapsule : Type 0 where
  pub root : String
  pub manifest : CapsuleManifest
  pub domain : CapsuleDomain
  pub requirements : List RequirementDelta
  pub evaluators : List EvaluatorPackage
  pub cases : List CalibrationCase
