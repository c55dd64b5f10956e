-- ===== src/Domain/Schema.antt =====
-- The refinements that `parseProductDomainContract` and `parseRequirementChangeSet` check on
-- documents of the right shape (src/domain/contracts.ts), as the list of the messages of their
-- issues, and `parseClaimDependencyGraph` with its patterns.
pub mod Laws
use domain_eval_weave.Base.{
  ℕ, ◌-◌, String, Bool, true, false, ◌&&◌, ◌||◌, not, Option, none, some, List, [], ◌∷◌, ◌++◌, map,
  ◌==◌, all, any, includes, is_unique, is_some, flat_map, eqb, ltb, split, starts_with, has_part,
  if◌then◌else◌, is_empty, all_codes, codes_count, drop, take, template,
}
use domain_eval_weave.Base.Result.{Result, ok, err, schema_error, require, ◌>>◌}
use domain_eval_weave.Capsule.Schema.Patterns.{sha256_matches, id_matches, id_code, optional}
use domain_eval_weave.Domain.Encode.{edge_kind_text}
use domain_eval_weave.Domain.Index.{Index}
use domain_eval_weave.Domain.Contracts.{
  DomainPackPointer, DomainSourceKind, domain_knowledge, DomainSourceRef, ContractClaimRef,
  TransitionKind, retires_claim, ClaimTransition, Lifecycle, retired, ProductDomainClaim,
  ProductDomainContract, ProposedClaim, ClaimConflict, RequirementStatus, owner_confirmed,
  RequirementChangeSet, GraphNode, GraphEdge, ClaimDependencyGraph,
}

-- `if (test) context.addIssue(message)`
abbrev pub issue_if : Bool → String → List String
issue_if true message = message ∷ []
issue_if false message = []

-- A document with an issue is refused, with the first one as the message.
abbrev pub accepted_unless {ℓ} : {A : Type ℓ} → List String → A → Result A
accepted_unless [] document = ok document
accepted_unless (message ∷ more) document = err (schema_error message)

-- `packageRelativeRefSchema`
unfoldable pub is_package_relative : String → Bool
is_package_relative ref =
    not (ref == "")
    && not (starts_with ref "/")
    && not (has_part ref "\\")
    && all (λ segment. not (segment == "") && not (segment == ".") && not (segment == ".."))
        (split b'/' ref)

-- `domainPackPointerSchema.parse({ ref, sha256 })`
unfoldable pub parse_pointer : String → String → Result DomainPackPointer
unfolding is_package_relative
parse_pointer ref sha256 =
    accepted_unless
      (issue_if (not (is_package_relative ref)) "ref must be a normalized package-relative path"
        ++ issue_if (not (sha256_matches sha256)) "invalid string")
      (record { ref = ref; sha256 = sha256 })

abbrev pub is_domain_knowledge : DomainSourceKind → Bool
is_domain_knowledge domain_knowledge = true
is_domain_knowledge _ = false

abbrev is_retires : TransitionKind → Bool
is_retires retires_claim = true
is_retires _ = false

abbrev is_retired : Lifecycle → Bool
is_retired retired = true
is_retired _ = false

-- `a !== b` on truth values.
abbrev pub differ : Bool → Bool → Bool
differ true b = not b
differ false b = b

abbrev transition_issues : ℕ → ProductDomainClaim → Option ClaimTransition → List String
transition_issues version claim none = []
transition_issues version claim (some t) =
    issue_if
      (eqb version 1
        || not (t.predecessor.claim_id == claim.claim_id)
        || not (eqb t.predecessor.contract_version (version - 1))
        || differ (is_retires t.kind) (is_retired claim.lifecycle))
      "Claim transition does not match version/lifecycle"

abbrev claim_issues : List String → ℕ → ProductDomainClaim → List String
claim_issues claim_ids version claim =
    issue_if (any (λ d. d.claim_id == claim.claim_id) claim.dependencies)
      "claim cannot depend on itself"
    ++ flat_map
        (λ d.
          issue_if (not (includes d.claim_id claim_ids) || not (eqb d.contract_version version))
            "claim dependency must exist")
        claim.dependencies
    ++ issue_if (all (λ s. is_domain_knowledge s.kind) claim.authority_refs)
        "contract truth cannot rely only on domain knowledge"
    ++ transition_issues version claim claim.transition

-- `validateContractCandidate`
unfoldable pub contract_issues : ProductDomainContract → List String
contract_issues c =
    let claim_ids : List String = map (λ k. k.claim_id) c.claims in
    issue_if (not (is_unique claim_ids)) "claim ids must be unique"
    ++ flat_map (λ k. claim_issues claim_ids c.version k) c.claims
    ++ issue_if (eqb c.version 1 && is_some c.predecessor) "version 1 cannot have a predecessor"
    ++ issue_if (ltb 1 c.version && not (is_some c.predecessor))
        "later versions require a predecessor"

unfoldable pub parse_product_domain_contract : ProductDomainContract → Result ProductDomainContract
unfolding contract_issues
parse_product_domain_contract c = accepted_unless (contract_issues c) c

abbrev pub source_issues : List String → String → List String → List String
source_issues source_ids message ids =
    flat_map (λ id. issue_if (not (includes id source_ids)) message) ids

abbrev status_issues : RequirementChangeSet → List String
status_issues r = elim r.status [
  | owner_confirmed ↦
      issue_if (not (is_some r.confirmation))
        "owner-confirmed requirements need a confirmation event"
  | _ ↦ issue_if (is_some r.confirmation) "draft requirements cannot carry confirmation"
]

-- The refinement of `requirementChangeSetSchema`.
unfoldable pub requirement_issues : RequirementChangeSet → List String
requirement_issues r =
    let source_ids : List String = map (λ s. s.source_id) r.requirement_refs in
    let proposals : List ProposedClaim =
      r.effects.introduces ++ map (λ m. m.proposed) r.effects.modifies in
    issue_if (not (differ (eqb r.version 1) (is_some r.predecessor)))
      "only later Requirement versions require a predecessor"
    ++ issue_if (not (is_unique source_ids)) "source ids must be unique"
    ++ flat_map (λ p. source_issues source_ids "proposed claim source must exist" p.source_ref_ids)
        proposals
    ++ flat_map (λ c. source_issues source_ids "conflict source must exist" c.source_ref_ids)
        r.effects.conflicts_with
    ++ status_issues r

unfoldable pub parse_requirement_change_set : RequirementChangeSet → Result RequirementChangeSet
unfolding requirement_issues
parse_requirement_change_set r = accepted_unless (requirement_issues r) r

abbrev index_issues : List String → Index → List String
index_issues node_ids [] = []
index_issues node_ids ((target, sources) ∷ rest) =
    issue_if (not (includes target node_ids) || any (λ s. not (includes s node_ids)) sources)
      "reverse index nodes must exist"
    ++ issue_if (not (is_unique sources)) "reverse index sources must be unique"
    ++ index_issues node_ids rest

abbrev edge_issues : List String → GraphEdge → List String
edge_issues node_ids e =
    issue_if (not (includes e.from node_ids) || not (includes e.to node_ids))
      "edge endpoints must exist"

abbrev node_issues : List String → List String
node_issues node_ids = issue_if (not (is_unique node_ids)) "node ids must be unique"

-- The refinement of `claimDependencyGraphSchema`.
unfoldable pub graph_issues : ClaimDependencyGraph → List String
graph_issues g =
    let node_ids : List String = map (λ n. n.node_id) g.nodes in
    node_issues node_ids
    ++ flat_map (edge_issues node_ids) g.edges
    ++ index_issues node_ids g.reverse_index

abbrev node_name_code : ℕ → Bool
node_name_code c = id_code c || eqb c b':'

-- `/^[A-Za-z0-9][A-Za-z0-9._:-]{0,255}$/`
abbrev name_fits : String → Bool
name_fits s = id_matches (take 1 s) && all_codes node_name_code s && ltb (codes_count s) 257

-- `/^(?:claim|proposal|requirement):[A-Za-z0-9][A-Za-z0-9._:-]{0,255}$/`
unfoldable pub node_id_matches : String → Bool
unfolding starts_with drop all_codes codes_count
node_id_matches id =
    any (λ prefix. starts_with id prefix && name_fits (drop (codes_count prefix) id))
      ("claim:" ∷ "proposal:" ∷ "requirement:" ∷ [])

-- `domainPackPointerSchema`
abbrev pub pointer_fits : DomainPackPointer → Bool
pointer_fits p = is_package_relative p.ref && sha256_matches p.sha256

-- `unique(domainPackPointerSchema)`; pointers that fit are equal exactly if these texts of them are.
abbrev pub pointers_fit : List DomainPackPointer → Bool
pointers_fit pointers =
    all pointer_fits pointers
    && is_unique
        (map (λ p. template (DomainPackPointer.sha256 p ∷ DomainPackPointer.ref p ∷ [])) pointers)

abbrev node_fits : GraphNode → Bool
node_fits n =
    node_id_matches n.node_id
    && id_matches n.object_id
    && ltb 0 n.object_version
    && optional id_matches n.domain_id

abbrev edge_fits : GraphEdge → Bool
edge_fits e = node_id_matches e.from && node_id_matches e.to

abbrev entry_fits : String × List String → Bool
entry_fits (target, sources) =
    node_id_matches target && not (is_empty sources) && all node_id_matches sources

-- The patterns, lengths and unique arrays of `claimDependencyGraphSchema`. Edges that fit are equal
-- exactly if these texts of them are.
unfoldable pub graph_fits : ClaimDependencyGraph → Bool
unfolding node_id_matches is_package_relative
graph_fits g =
    id_matches g.graph_id
    && id_matches g.product_id
    && pointer_fits g.contract
    && pointers_fit g.requirements
    && not (is_empty g.nodes)
    && all node_fits g.nodes
    && all edge_fits g.edges
    && is_unique
        (map (λ e. template (e.from ∷ "\0" ∷ e.to ∷ "\0" ∷ edge_kind_text e.kind ∷ [])) g.edges)
    && all entry_fits g.reverse_index

unfoldable pub parse_claim_dependency_graph : ClaimDependencyGraph → Result ClaimDependencyGraph
unfolding graph_issues graph_fits
parse_claim_dependency_graph g =
    require (graph_fits g) (schema_error "invalid claim dependency graph")
    >> accepted_unless (graph_issues g) g
