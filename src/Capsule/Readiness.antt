-- ===== src/Capsule/Readiness.antt =====
-- `inspectCapsuleReadiness` of packages/weave/src/capsule/readiness.ts. The Release that
-- `previewCapsuleRelease` returns and the names below .eval/calibrations are arguments.
pub mod Laws
use domain_eval_weave.Base.{
  ℕ, zero, suc, String, Bool, true, false, ◌&&◌, ◌||◌, not, Option, none, some, List, [], ◌∷◌, ◌++◌,
  map, filter, any, all, find, flat_map, includes, is_empty, length, map_get, ◌==◌, if◌then◌else◌,
  template, sort,
}
use domain_eval_weave.Base.Result.{Result, ok, ◌>>=◌, ◌>>◌}
use domain_eval_weave.Platform.{Platform}
use domain_eval_weave.Capsule.Contracts.{
  CapsuleSource, ClaimStatus, confirmed, proposed, unresolved, conflicted, observability_gap, Claim,
  RequirementEdge, RequirementDelta, EvaluatorCheck, EvaluatorPackage, LoadedCapsule,
}
use domain_eval_weave.Capsule.Schema.Documents.{is_confirmed}
use domain_eval_weave.Capsule.Lookup.{evaluator_reference, find_evaluator}
use domain_eval_weave.Capsule.Semantics.{claim_of, status_name}
use domain_eval_weave.Evaluator.Engine.Candidate.{ReleasedCapsule}
use domain_eval_weave.Evaluator.Calibration.Report.{CalibrationReport}
use domain_eval_weave.Evaluator.Calibration.Reports.{
  PersistedCalibrationReport, selects, reference_of, find_calibration_reports,
}

pub data Stage : Type 0 where
  draft runnable qualified publishable : Stage

pub data ActionCode : Type 0 where
  add_source add_claim add_requirement add_evaluator add_candidate : ActionCode
  confirm_required_claim add_required_check add_calibration_case : ActionCode
  calibrate_evaluator complete_source_provenance : ActionCode

pub record ReadinessAction : Type 0 where
  pub code : ActionCode
  pub message : String
  pub locator : Option String

pub record ClaimCounts : Type 0 where
  pub confirmed : ℕ
  pub proposed : ℕ
  pub unresolved : ℕ
  pub conflicted : ℕ
  pub observability_gap : ℕ

pub record Readiness : Type 0 where
  pub capsule_id : String
  pub stage : Stage
  pub claims : ClaimCounts
  pub required_claim_blockers : List String
  pub source_provenance_blockers : List String
  pub requirements : ℕ
  pub evaluators : ℕ
  pub candidates : ℕ
  pub cases : ℕ
  pub runnable_evaluator_refs : List String
  pub qualified_evaluator_refs : List String
  pub release_sha256 : String
  pub calibration_refs : List String
  pub next_actions : List ReadinessAction

-- `claim?.status === "confirmed"`
abbrev pub is_confirmed_claim : Option Claim → Bool
is_confirmed_claim none = false
is_confirmed_claim (some claim) = is_confirmed claim.status

-- `claim?.status ?? "missing"`
abbrev status_or_missing : Option Claim → String
status_or_missing none = "missing"
status_or_missing (some claim) = status_name claim.status

abbrev is_absent : Option String → Bool
is_absent none = true
is_absent (some s) = false

abbrev first : List String → Option String
first [] = none
first (s ∷ rest) = some s

-- `[...new Set(texts)]`, which keeps the first of equal texts.
distinct_from : List String → List String → List String
distinct_from seen [] = []
distinct_from seen (s ∷ rest) =
    let kept = distinct_from (s ∷ seen) rest in
    let dropped = distinct_from seen rest in if includes s seen then dropped else s ∷ kept

unfoldable pub distinct : List String → List String
unfolding distinct_from
distinct ss = distinct_from [] ss

unfoldable pub required_edges : RequirementDelta → List RequirementEdge
required_edges requirement = filter (λ e. RequirementEdge.required e) requirement.edges

unfoldable pub edge_blockers : LoadedCapsule → RequirementDelta → RequirementEdge → List String
edge_blockers capsule requirement edge =
    if is_confirmed_claim (claim_of capsule edge.claim_id)
    then []
    else template (
        requirement.requirement_id
        ∷ ":"
        ∷ edge.claim_id
        ∷ ":"
        ∷ status_or_missing (claim_of capsule edge.claim_id)
        ∷ [])
      ∷ []

unfoldable pub required_claim_blockers : LoadedCapsule → List String
unfolding required_edges edge_blockers
required_claim_blockers capsule =
    sort
      (flat_map (λ r. flat_map (edge_blockers capsule r) (required_edges r)) capsule.requirements)

unfoldable pub lacks_provenance : CapsuleSource → Bool
lacks_provenance source = is_absent source.license || is_absent source.description

unfoldable pub source_provenance_blockers : LoadedCapsule → List String
unfolding lacks_provenance
source_provenance_blockers capsule =
    sort (map (λ s. CapsuleSource.source_id s) (filter lacks_provenance capsule.manifest.sources))

-- The test on the requirement that an Evaluator names.
unfoldable pub covers : LoadedCapsule → EvaluatorPackage → Option RequirementDelta → Bool
unfolding required_edges
covers capsule evaluator none = false
covers capsule evaluator (some requirement) =
    all
      (λ e.
        is_confirmed_claim (claim_of capsule (RequirementEdge.claim_id e))
        && includes e.claim_id (map (λ c. EvaluatorCheck.claim_id c) evaluator.checks))
      (required_edges requirement)

unfoldable pub is_runnable : LoadedCapsule → EvaluatorPackage → Bool
unfolding covers
is_runnable capsule evaluator =
    covers capsule evaluator (
      find (λ r. RequirementDelta.requirement_id r == evaluator.requirement_id)
        capsule.requirements)

unfoldable pub runnable_evaluator_refs : LoadedCapsule → Option String → List String
unfolding is_runnable
runnable_evaluator_refs capsule evaluator_ref = sort (
    filter (selects evaluator_ref) (
      map (λ e. evaluator_reference (EvaluatorPackage.evaluator_id e) e.version)
        (filter (is_runnable capsule) capsule.evaluators)))

unfoldable pub qualified_evaluator_refs : List PersistedCalibrationReport → List String
unfolding distinct
qualified_evaluator_refs persisted = sort (
    distinct (
      map (λ e. reference_of (PersistedCalibrationReport.report e))
        (filter (λ e. CalibrationReport.qualified (PersistedCalibrationReport.report e))
          persisted)))

-- The tests that the stage and the next actions are taken from.
unfoldable pub runnable_now : LoadedCapsule → Option String → Bool
runnable_now capsule evaluator_ref =
    not (is_empty capsule.requirements)
    && not (is_empty capsule.evaluators)
    && not (is_empty capsule.manifest.candidates)
    && is_empty (required_claim_blockers capsule)
    && not (is_empty (runnable_evaluator_refs capsule evaluator_ref))

unfoldable pub qualified_now :
    LoadedCapsule → Option String → List PersistedCalibrationReport → Bool
unfolding runnable_now
qualified_now capsule evaluator_ref persisted =
    runnable_now capsule evaluator_ref && not (is_empty (qualified_evaluator_refs persisted))

unfoldable pub publishable_now :
    LoadedCapsule → Option String → List PersistedCalibrationReport → Bool
unfolding qualified_now
publishable_now capsule evaluator_ref persisted =
    qualified_now capsule evaluator_ref persisted && is_empty (source_provenance_blockers capsule)

unfoldable pub stage_of : LoadedCapsule → Option String → List PersistedCalibrationReport → Stage
unfolding runnable_now qualified_now publishable_now
stage_of capsule evaluator_ref persisted =
    if publishable_now capsule evaluator_ref persisted
    then publishable
    else if qualified_now capsule evaluator_ref persisted
    then qualified
    else if runnable_now capsule evaluator_ref
    then runnable
    else draft

-- `if (test) nextActions.push(action(code, message, locator))`
abbrev pub when : Bool → ActionCode → String → Option String → List ReadinessAction
when test code message locator =
    if test then record { code = code; message = message; locator = locator } ∷ [] else []

-- `evaluatorRef ?? refs[0]`
abbrev wanted_or_first : Option String → List String → Option String
wanted_or_first none refs = first refs
wanted_or_first (some ref) refs = some ref

unfoldable pub next_actions :
    LoadedCapsule → Option String → List PersistedCalibrationReport → List ReadinessAction
unfolding runnable_now qualified_now
next_actions capsule evaluator_ref persisted =
    let blockers = required_claim_blockers capsule in
    let provenance = source_provenance_blockers capsule in
    let refs = runnable_evaluator_refs capsule evaluator_ref in
    when (is_empty capsule.manifest.sources) add_source "Add at least one provenance-bound source"
      (some "capsule.yaml#sources")
    ++ (when (is_empty capsule.domain.claims) add_claim "Add proposed Claims grounded in sources"
          (some capsule.manifest.domain)
        ++ (when (is_empty capsule.requirements) add_requirement "Add a Requirement Delta"
              (some "requirements/")
            ++ (when (is_empty capsule.evaluators) add_evaluator "Add a versioned Evaluator"
                  (some "evaluators/")
                ++ (when (is_empty capsule.manifest.candidates) add_candidate
                      "Add a Candidate command closure" (some "capsule.yaml#candidates")
                    ++ (when (not (is_empty blockers)) confirm_required_claim
                          "Confirm or remove every required non-confirmed Claim" (first blockers)
                        ++ (when
                              (not (is_empty capsule.evaluators)
                                && not (is_empty capsule.requirements)
                                && is_empty refs
                                && is_empty blockers)
                              add_required_check "Bind checks for every required confirmed Claim"
                              (some "evaluators/")
                            ++ (when (runnable_now capsule evaluator_ref && is_empty capsule.cases)
                                  add_calibration_case
                                  "Add Gold, equivalent and mutant calibration cases"
                                  (some "cases/")
                                ++ (when
                                      (runnable_now capsule evaluator_ref
                                        && not (qualified_now capsule evaluator_ref persisted))
                                      calibrate_evaluator
                                      "Persist a qualified calibration for the exact Capsule release"
                                      (wanted_or_first evaluator_ref refs)
                                    ++ when
                                        (qualified_now capsule evaluator_ref persisted
                                          && not (is_empty provenance))
                                        complete_source_provenance
                                        "Add description and license for every published source"
                                        (first provenance)))))))))

abbrev has_status : ClaimStatus → Claim → Bool
has_status status claim = status_name claim.status == status_name status

unfoldable pub claim_counts : List Claim → ClaimCounts
claim_counts claims = record {
  confirmed = length (filter (has_status confirmed) claims);
  proposed = length (filter (has_status proposed) claims);
  unresolved = length (filter (has_status unresolved) claims);
  conflicted = length (filter (has_status conflicted) claims);
  observability_gap = length (filter (has_status observability_gap) claims);
}

abbrev known_evaluator : LoadedCapsule → Option String → Result (Unit {0})
known_evaluator capsule none = ok tt
known_evaluator capsule (some ref) = do evaluator ← find_evaluator capsule ref; ok tt

unfoldable pub inspect_capsule_readiness :
    Platform
    → (String → Result CalibrationReport)
    → LoadedCapsule
    → Option String
    → ReleasedCapsule
    → List String
    → Result Readiness
unfolding stage_of next_actions
inspect_capsule_readiness p stored capsule evaluator_ref released names = do
  known_evaluator capsule evaluator_ref
  persisted ← find_calibration_reports p stored released.sha256 evaluator_ref names
  ok (record {
    capsule_id = capsule.manifest.capsule_id;
    stage = stage_of capsule evaluator_ref persisted;
    claims = claim_counts capsule.domain.claims;
    required_claim_blockers = required_claim_blockers capsule;
    source_provenance_blockers = source_provenance_blockers capsule;
    requirements = length capsule.requirements;
    evaluators = length capsule.evaluators;
    candidates = length capsule.manifest.candidates;
    cases = length capsule.cases;
    runnable_evaluator_refs = runnable_evaluator_refs capsule evaluator_ref;
    qualified_evaluator_refs = qualified_evaluator_refs persisted;
    release_sha256 = released.sha256;
    calibration_refs = map (λ e. PersistedCalibrationReport.ref e) persisted;
    next_actions = next_actions capsule evaluator_ref persisted;
  })
