-- ===== src/Capsule/Lookup.antt =====
-- `evaluatorReference` and the `find…` functions of packages/weave/src/capsule/loader.ts.
use domain_eval_weave.Base.{String, [], ◌∷◌, none, find, ◌==◌, template}
use domain_eval_weave.Base.Result.{capsule_error, Result, or_throw}
use domain_eval_weave.Capsule.Contracts.{
  CapsuleCandidate, RequirementDelta, EvaluatorPackage, LoadedCapsule,
}

unfoldable pub evaluator_reference : String → String → String
evaluator_reference evaluator_id version = template (evaluator_id ∷ "@" ∷ version ∷ [])

unfoldable pub find_evaluator : LoadedCapsule → String → Result EvaluatorPackage
find_evaluator capsule ref =
    or_throw
      (find (λ e. evaluator_reference (EvaluatorPackage.evaluator_id e) e.version == ref)
        capsule.evaluators)
      (capsule_error "CAPSULE_EVALUATOR_UNKNOWN"
        (template ("Evaluator " ∷ ref ∷ " does not exist" ∷ [])) none)

unfoldable pub find_requirement : LoadedCapsule → String → Result RequirementDelta
find_requirement capsule requirement_id =
    or_throw (find (λ r. RequirementDelta.requirement_id r == requirement_id) capsule.requirements)
      (capsule_error "CAPSULE_REQUIREMENT_UNKNOWN"
        (template ("Requirement " ∷ requirement_id ∷ " does not exist" ∷ [])) none)

unfoldable pub find_candidate : LoadedCapsule → String → Result CapsuleCandidate
find_candidate capsule candidate_id =
    or_throw
      (find (λ c. CapsuleCandidate.candidate_id c == candidate_id) capsule.manifest.candidates)
      (capsule_error "CAPSULE_CANDIDATE_UNKNOWN"
        (template ("Candidate " ∷ candidate_id ∷ " does not exist" ∷ [])) none)
