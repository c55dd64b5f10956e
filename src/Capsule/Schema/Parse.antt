-- ===== src/Capsule/Schema/Parse.antt =====
-- The `parse…` functions of packages/weave/src/capsule/contracts.ts: a document that fails its
-- schema is refused, and one that passes is returned as it is.
use domain_eval_weave.Base.{String, Bool, true, ◌≡◌, arith}
use domain_eval_weave.Base.Result.{Result, ok, require, schema_error, ◌>>◌}
use domain_eval_weave.Capsule.Contracts.{
  CapsuleManifest, CapsuleDomain, RequirementDelta, EvaluatorPackage, CalibrationCase,
  EvaluationRun, CapsuleRelease,
}
use domain_eval_weave.Capsule.Schema.Documents.{
  capsule_manifest_schema, capsule_domain_schema, requirement_delta_schema,
  evaluator_package_schema, calibration_case_schema, capsule_release_schema,
}
use domain_eval_weave.Capsule.Schema.Runs.{evaluation_run_schema}

abbrev pub checked {ℓ} : {A : Type ℓ} → (A → Bool) → String → A → Result A
checked schema name value = require (schema value) (schema_error name) >> ok value

pub checked-ok {ℓ} :
    {A : Type ℓ} (schema : A → Bool) (name : String) (a b : A)
    → checked schema name a ≡ ok b
    → (schema a ≡ true) × (b ≡ a)
checked-ok schema name a b h = ground arith

unfoldable pub parse_capsule_manifest : CapsuleManifest → Result CapsuleManifest
parse_capsule_manifest = checked capsule_manifest_schema "CapsuleManifest"

unfoldable pub parse_capsule_domain : CapsuleDomain → Result CapsuleDomain
parse_capsule_domain = checked capsule_domain_schema "CapsuleDomain"

unfoldable pub parse_requirement_delta : RequirementDelta → Result RequirementDelta
parse_requirement_delta = checked requirement_delta_schema "RequirementDelta"

unfoldable pub parse_evaluator_package : EvaluatorPackage → Result EvaluatorPackage
parse_evaluator_package = checked evaluator_package_schema "EvaluatorPackage"

unfoldable pub parse_calibration_case : CalibrationCase → Result CalibrationCase
parse_calibration_case = checked calibration_case_schema "CalibrationCase"

unfoldable pub parse_evaluation_run : EvaluationRun → Result EvaluationRun
parse_evaluation_run = checked evaluation_run_schema "EvaluationRun"

unfoldable pub parse_capsule_release : CapsuleRelease → Result CapsuleRelease
parse_capsule_release = checked capsule_release_schema "CapsuleRelease"

pub parse_capsule_domain-ok :
    (a b : CapsuleDomain)
    → parse_capsule_domain a ≡ ok b
    → (capsule_domain_schema a ≡ true) × (b ≡ a)
unfolding parse_capsule_domain
parse_capsule_domain-ok = checked-ok capsule_domain_schema "CapsuleDomain"

pub parse_evaluation_run-ok :
    (a b : EvaluationRun)
    → parse_evaluation_run a ≡ ok b
    → (evaluation_run_schema a ≡ true) × (b ≡ a)
unfolding parse_evaluation_run
parse_evaluation_run-ok = checked-ok evaluation_run_schema "EvaluationRun"

-- A document that fits its schema is returned.
pub parse_evaluation_run_of_fits :
    (a : EvaluationRun) → evaluation_run_schema a ≡ true → parse_evaluation_run a ≡ ok a
unfolding parse_evaluation_run
parse_evaluation_run_of_fits a h = rw h
