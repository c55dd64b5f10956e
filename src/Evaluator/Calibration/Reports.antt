-- ===== src/Evaluator/Calibration/Reports.antt =====
-- `readCalibrationReport` and `findCalibrationReports` of
-- packages/weave/src/evaluator/calibration.ts. The files below .eval/calibrations are given by
-- their names and by `stored`, which reads and decodes one of them.
use domain_eval_weave.Base.{
  String, Bool, true, ◌&&◌, Option, none, some, List, [], ◌∷◌, map, filter, ◌==◌, if◌then◌else◌,
  template, sort,
}
use domain_eval_weave.Base.Result.{capsule_error, schema_error, Result, ok, require, ◌>>=◌, ◌>>◌}
use domain_eval_weave.Json.{JsonValue, str, bool, num, finite}
use domain_eval_weave.Json.Build.{object, array, texts}
use domain_eval_weave.Platform.{Platform, canonical_json_digest}
use domain_eval_weave.Capsule.Contracts.{ResultStatus, CaseKind, gold, equivalent, mutant}
use domain_eval_weave.Capsule.Lookup.{evaluator_reference}
use domain_eval_weave.Evaluator.Encode.{status_text}
use domain_eval_weave.Evaluator.Engine.Candidate.{artifact_ref_matches, artifact_digest}
use domain_eval_weave.Evaluator.Calibration.Report.{
  Mismatch, CaseResult, CalibrationReport, calibration_report_schema,
}

abbrev actual_text : Option ResultStatus → String
actual_text none = "missing"
actual_text (some status) = status_text status

abbrev kind_text : CaseKind → String
kind_text gold = "gold"
kind_text equivalent = "equivalent"
kind_text mutant = "mutant"

mismatch_json : Mismatch → JsonValue
mismatch_json m = object (
    ("claim_id", str m.claim_id)
    ∷ ("expected", str (status_text m.expected))
    ∷ ("actual", str (actual_text m.actual))
    ∷ [])

case_json : CaseResult → JsonValue
unfolding mismatch_json
case_json c = object (
    ("case_id", str c.case_id)
    ∷ ("kind", str (kind_text c.kind))
    ∷ ("matched", bool c.matched)
    ∷ ("mismatches", array (map mismatch_json c.mismatches))
    ∷ [])

unfoldable pub report_json : CalibrationReport → JsonValue
unfolding case_json
report_json r = object (
    ("schema_version", num (finite "1"))
    ∷ ("capsule_release_sha256", str r.capsule_release_sha256)
    ∷ (
      "evaluator",
      object (
          ("evaluator_id", str r.evaluator.evaluator_id)
          ∷ ("version", str r.evaluator.version)
          ∷ []),
    )
    ∷ ("qualified", bool r.qualified)
    ∷ ("diagnostics", texts r.diagnostics)
    ∷ ("failed_case_ids", texts r.failed_case_ids)
    ∷ ("cases", array (map case_json r.cases))
    ∷ [])

pub record PersistedCalibrationReport : Type 0 where
  pub report : CalibrationReport
  pub sha256 : String
  pub ref : String

-- `input.evaluatorRef === undefined || ref === input.evaluatorRef`
abbrev pub selects : Option String → String → Bool
selects none ref = true
selects (some wanted) ref = ref == wanted

abbrev pub reference_of : CalibrationReport → String
reference_of r = evaluator_reference r.evaluator.evaluator_id r.evaluator.version

module _ (p : Platform) (stored : String → Result CalibrationReport) where
  unfoldable pub read_calibration_report : String → Result CalibrationReport
  read_calibration_report ref = do
    require (artifact_ref_matches ".eval/calibrations/" ref)
        (capsule_error "CAPSULE_CALIBRATION_REF_INVALID" "Calibration ref is invalid" (some ref))
    report ← stored ref
    require (calibration_report_schema report) (schema_error "CalibrationReport")
    digest ← canonical_json_digest p (report_json report)
    require (digest == artifact_digest ".eval/calibrations/" ref)
        (capsule_error "CAPSULE_CALIBRATION_DRIFT" "Calibration digest drifted" (some ref))
    ok report

  pub collect_reports :
      String → Option String → List String → Result (List PersistedCalibrationReport)
  collect_reports release_sha256 evaluator_ref [] = ok []
  collect_reports release_sha256 evaluator_ref (name ∷ names) = do
    let ref = template (".eval/calibrations/" ∷ name ∷ [])
    report ← read_calibration_report ref
    rest ← collect_reports release_sha256 evaluator_ref names
    ok (
        if report.capsule_release_sha256 == release_sha256
          && selects evaluator_ref (reference_of report)
        then record { report = report; sha256 = artifact_digest "" name; ref = ref } ∷ rest
        else rest)

  unfoldable pub find_calibration_reports :
      String → Option String → List String → Result (List PersistedCalibrationReport)
  unfolding collect_reports
  find_calibration_reports release_sha256 evaluator_ref names =
      collect_reports release_sha256 evaluator_ref (sort (filter (artifact_ref_matches "") names))
