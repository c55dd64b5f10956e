-- ===== src/Capsule/Schema/Documents.antt =====
-- The schemas of the documents of a Capsule (packages/weave/src/capsule/contracts.ts).
use domain_eval_weave.Base.{
  String, Bool, true, false, ◌&&◌, not, List, [], ◌∷◌, ◌++◌, map, leb, all, is_some, is_unique,
  includes, length, template,
}
use domain_eval_weave.Json.{JsonValue, Items, Fields}
use domain_eval_weave.Json
use domain_eval_weave.Capsule.Contracts.{
  CapsuleSource, CapsuleCandidate, CapsuleManifest, Confirmation, ClaimStatus, confirmed,
  conflicted, Claim, Owner, CapsuleDomain, Relation, uses, preserves, introduces, modifies,
  deprecates, conflicts_with, RequirementEdge, RequirementDelta, Segment, index, key,
  EvaluatorCheck, exit_code_equals, json_path_equals, json_array_count_equals, CheckKind,
  EvaluatorPackage, ExpectedClaim, CaseKind, mutant, CalibrationCase, ReleaseEntry, CapsuleRelease,
  DerivedEdge,
}
use domain_eval_weave.Capsule.Schema.Patterns.{
  id_matches, version_matches, sha256_matches, bounded, non_empty, relative_path_matches, optional,
  unique_strings, unique_by,
}

unfoldable pub capsule_source_schema : CapsuleSource → Bool
capsule_source_schema s =
    id_matches s.source_id
    && relative_path_matches s.path
    && optional (bounded 1 512) s.description
    && optional (bounded 1 128) s.license

unfoldable pub capsule_candidate_schema : CapsuleCandidate → Bool
capsule_candidate_schema c =
    id_matches c.candidate_id
    && relative_path_matches c.path
    && all (bounded 1 512) c.command
    && leb 1 (length c.command)
    && leb (length c.command) 32
    && leb 1 c.timeout_ms
    && leb c.timeout_ms 120000
    && leb 1 c.max_output_bytes
    && leb c.max_output_bytes 4194304

-- Every path that the manifest names.
unfoldable pub manifest_paths : CapsuleManifest → List String
manifest_paths m =
    m.domain
    ∷ (map (λ s. CapsuleSource.path s) m.sources
        ++ (m.requirements
            ++ (m.evaluators ++ (map (λ c. CapsuleCandidate.path c) m.candidates ++ m.cases))))

unfoldable pub capsule_manifest_schema : CapsuleManifest → Bool
unfolding capsule_source_schema capsule_candidate_schema manifest_paths
capsule_manifest_schema m =
    id_matches m.capsule_id
    && version_matches m.version
    && bounded 1 256 m.title
    && relative_path_matches m.domain
    && unique_by capsule_source_schema (λ s. s.source_id) m.sources
    && all relative_path_matches m.requirements
    && all relative_path_matches m.evaluators
    && unique_by capsule_candidate_schema (λ c. c.candidate_id) m.candidates
    && all relative_path_matches m.cases
    && is_unique m.requirements
    && is_unique m.evaluators
    && is_unique m.cases
    && is_unique (manifest_paths m)

unfoldable pub is_confirmed : ClaimStatus → Bool
is_confirmed confirmed = true
is_confirmed _ = false

unfoldable pub is_conflicted : ClaimStatus → Bool
is_conflicted conflicted = true
is_conflicted _ = false

abbrev same : Bool → Bool → Bool
same true b = b
same false b = not b

unfoldable pub claim_schema : Claim → Bool
unfolding is_confirmed is_conflicted
claim_schema c =
    id_matches c.claim_id
    && non_empty c.statement
    && non_empty c.applicability
    && unique_strings 1 c.source_ids
    && optional (λ k. id_matches (Confirmation.owner_id k) && sha256_matches k.projection_sha256)
        c.confirmation
    && optional (unique_strings 2) c.conflict_source_ids
    && same (is_confirmed c.status) (is_some c.confirmation)
    && same (is_conflicted c.status) (is_some c.conflict_source_ids)

-- The refinement of `capsuleDomainSchema` at one Claim.
unfoldable pub claim_fits_domain : List String → Claim → Bool
claim_fits_domain owners c =
    optional (λ k. includes (Confirmation.owner_id k) owners) c.confirmation
    && optional (all (λ s. includes s c.source_ids)) c.conflict_source_ids

unfoldable pub capsule_domain_schema : CapsuleDomain → Bool
unfolding claim_schema claim_fits_domain
capsule_domain_schema d =
    id_matches d.domain_id
    && version_matches d.version
    && unique_by (λ o. id_matches (Owner.owner_id o) && bounded 1 256 o.display_name)
        (λ o. o.owner_id) d.owners
    && leb 1 (length d.owners)
    && unique_by claim_schema (λ c. c.claim_id) d.claims
    && all (claim_fits_domain (map (λ o. Owner.owner_id o) d.owners)) d.claims

unfoldable pub relation_name : Relation → String
relation_name uses = "uses"
relation_name preserves = "preserves"
relation_name introduces = "introduces"
relation_name modifies = "modifies"
relation_name deprecates = "deprecates"
relation_name conflicts_with = "conflicts_with"

unfoldable pub edge_key : RequirementEdge → String
unfolding relation_name
edge_key e = template (e.claim_id ∷ ":" ∷ relation_name e.relation ∷ [])

unfoldable pub requirement_delta_schema : RequirementDelta → Bool
unfolding edge_key
requirement_delta_schema r =
    id_matches r.requirement_id
    && version_matches r.version
    && bounded 1 256 r.title
    && unique_strings 1 r.source_ids
    && unique_by (λ e. id_matches (RequirementEdge.claim_id e)) edge_key r.edges
    && leb 1 (length r.edges)

segment_schema : Segment → Bool
segment_schema (index i) = true
segment_schema (key k) = bounded 1 128 k

abbrev finite_number : Json.JsNumber → Bool
finite_number Json.non_finite = false
finite_number _ = true

-- `z.json()`: no number that is not finite, and no value that JSON does not have.
mutual
  json_schema : JsonValue → Bool
  json_schema Json.null = true
  json_schema (Json.bool b) = true
  json_schema (Json.num n) = finite_number n
  json_schema (Json.str s) = true
  json_schema (Json.arr items) = json_items_schema items
  json_schema (Json.obj fields) = json_fields_schema fields
  json_schema Json.object_prototype = false
  json_schema (Json.exotic d) = false

  json_items_schema : Items → Bool
  json_items_schema Json.nil = true
  json_items_schema (Json.cons value rest) = json_schema value && json_items_schema rest

  json_fields_schema : Fields → Bool
  json_fields_schema Json.end = true
  json_fields_schema (Json.field k value rest) = json_schema value && json_fields_schema rest

abbrev scalar_schema : JsonValue → Bool
scalar_schema (Json.str s) = true
scalar_schema (Json.num n) = finite_number n
scalar_schema (Json.bool b) = true
scalar_schema Json.null = true
scalar_schema _ = false

check_kind_schema : CheckKind → Bool
unfolding segment_schema json_schema
check_kind_schema (exit_code_equals expected) = true
check_kind_schema (json_path_equals path expected) =
    all segment_schema path && leb 1 (length path) && json_schema expected
check_kind_schema (json_array_count_equals path conditions expected_count) =
    all segment_schema path
    && leb 1 (length path)
    && all (λ entry. bounded 1 128 entry.0 && scalar_schema entry.1) conditions

unfoldable pub evaluator_check_schema : EvaluatorCheck → Bool
unfolding check_kind_schema
evaluator_check_schema c =
    id_matches c.check_id && id_matches c.claim_id && check_kind_schema c.kind

unfoldable pub evaluator_package_schema : EvaluatorPackage → Bool
unfolding evaluator_check_schema
evaluator_package_schema e =
    id_matches e.evaluator_id
    && version_matches e.version
    && id_matches e.requirement_id
    && optional (bounded 1 512) e.description
    && unique_by evaluator_check_schema (λ c. c.check_id) e.checks
    && leb 1 (length e.checks)

abbrev is_mutant : CaseKind → Bool
is_mutant mutant = true
is_mutant _ = false

unfoldable pub calibration_case_schema : CalibrationCase → Bool
calibration_case_schema c =
    id_matches c.case_id
    && id_matches c.candidate_id
    && optional (unique_strings 1) c.target_claim_ids
    && unique_by (λ e. id_matches (ExpectedClaim.claim_id e)) (λ e. e.claim_id) c.expected_claims
    && leb 1 (length c.expected_claims)
    && same (is_mutant c.kind) (is_some c.target_claim_ids)

unfoldable pub capsule_release_schema : CapsuleRelease → Bool
capsule_release_schema r =
    id_matches r.capsule_id
    && version_matches r.capsule_version
    && all (λ e. relative_path_matches (ReleaseEntry.path e) && sha256_matches e.sha256) r.entries
    && leb 1 (length r.entries)
    && unique_strings 0 r.claims
    && all (λ e. id_matches (DerivedEdge.requirement_id e) && id_matches e.claim_id)
        r.requirement_edges
