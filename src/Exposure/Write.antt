-- ===== src/Exposure/Write.antt =====
-- `write` and `read` of src/exposure/ledger.ts.
pub mod Laws
pub mod Replay
use domain_eval_weave.Base.{
  String, Bool, true, false, ◌&&◌, Option, none, some, List, [], ◌∷◌, ◌==◌, template, if◌then◌else◌,
}
use domain_eval_weave.Base.Result.{
  Failure, Result, ok, err, require, or_throw, for_each, ◌>>=◌, ◌>>◌,
}
use domain_eval_weave.Json.{JsonValue, canonical_json}
use domain_eval_weave.Capsule.Schema.Patterns.{id_matches}
use domain_eval_weave.Exposure.Records.{
  HoldoutIdentity, HoldoutReservation, Entry, Directory, file_at, ledger_error, read_record,
  read_reservation, reservation_paths, phase2_exposure_id, id_error,
}
use domain_eval_weave.Exposure.Documents.{
  parse_exposure_record, LedgerHost, Bucket, holdout, ExposureRecord, record_json,
}
use domain_eval_weave.Exposure.Reserve.{Ledger}

abbrev pub identity_of : ExposureRecord → HoldoutIdentity
identity_of r = record {
  task_id = r.task_id;
  public_task_sha256 = r.public_task_sha256;
  effective_base_sha256 = r.effective_base_sha256;
}

abbrev missing_reservation : Failure
missing_reservation =
    ledger_error "HOLDOUT_RESERVATION_MISSING"
      "holdout exposure requires a complete atomic Suite reservation"

abbrev pub mismatched_reservation : Failure
mismatched_reservation =
    ledger_error "HOLDOUT_RESERVATION_MISMATCH"
      "holdout exposure is not owned by the reserving Suite and frozen evidence"

abbrev pub reserves : HoldoutReservation → ExposureRecord → Bool
reserves h r =
    (h.identity.task_id == r.task_id)
    && (h.identity.public_task_sha256 == r.public_task_sha256)
    && (h.identity.effective_base_sha256 == r.effective_base_sha256)
    && (h.suite_id == r.suite_id)

-- One path of the reservation that an exposure needs.
unfoldable pub check_path : LedgerHost → Directory → ExposureRecord → String → Result (Unit {0})
check_path host reservations r name = elim (file_at reservations name) [
  | none ↦ err missing_reservation
  | some (n, entry) ↦
      read_reservation host entry >>= λ found. require (reserves found r) mismatched_reservation
]

abbrev pub is_holdout : Bucket → Bool
is_holdout holdout = true
is_holdout _ = false

unfoldable pub assert_holdout_reservation :
    LedgerHost → Directory → ExposureRecord → Result (Unit {0})
assert_holdout_reservation host reservations r =
    if is_holdout r.bucket
    then for_each (check_path host reservations r) (reservation_paths (identity_of r))
    else ok tt

abbrev pub mismatched_id : Failure
mismatched_id =
    ledger_error "EXPOSURE_ID_MISMATCH" "exposure id must be derived from Suite, Task, and arm"

-- The checks of `write` on a record that is parsed, and the text it will link.
unfoldable pub prepare_write : LedgerHost → Directory → ExposureRecord → Result String
prepare_write host reservations r = phase2_exposure_id r.suite_id r.task_id r.arm >>= λ expected_id.
    require (r.exposure_id == expected_id) mismatched_id
    >> assert_holdout_reservation host reservations r
    >> canonical_json (record_json r)

abbrev pub exposure_name : String → String
exposure_name id = template (id ∷ ".json" ∷ [])

abbrev pub frozen : Failure
frozen = ledger_error "EXPOSURE_ALREADY_EXISTS" "exposure id is already frozen with different bytes"

-- A file that is there must hold the same record.
unfoldable pub publish : LedgerHost → ExposureRecord → String → Directory → Result Directory
publish host r text exposures = elim (file_at exposures (exposure_name r.exposure_id)) [
  | none ↦ ok ((exposure_name r.exposure_id, record { physical = true; text = text }) ∷ exposures)
  | some (n, entry) ↦ read_record host entry r.exposure_id >>= λ existing.
      canonical_json (record_json existing) >>= λ found.
      require (found == text) frozen >> ok exposures
]

pub record ExposureWrite : Type 0 where
  pub path : String
  pub sha256 : String

abbrev pub receipt_of : LedgerHost → ExposureRecord → String → ExposureWrite
receipt_of host r text = record {
  path = exposure_name r.exposure_id;
  sha256 = host.platform.sha256_hex text;
}

unfoldable pub write_exposure : LedgerHost → JsonValue → Ledger → Result (Ledger × ExposureWrite)
write_exposure host input ledger = parse_exposure_record host input >>= λ r.
    prepare_write host ledger.reservations r >>= λ text.
    publish host r text ledger.exposures >>= λ exposures.
    ok (record ledger { exposures = exposures }, receipt_of host r text)

unfoldable pub read_exposure :
    LedgerHost → String → Ledger → Result (ExposureWrite × ExposureRecord)
read_exposure host exposure_id ledger =
    require (id_matches exposure_id) (id_error "exposure id must be normalized")
    >> or_throw (file_at ledger.exposures (exposure_name exposure_id))
        (ledger_error "EXPOSURE_ENTRY_MISSING" "exposure entry is missing")
    >>= λ file. read_record host file.1 exposure_id >>= λ r.
        canonical_json (record_json r) >>= λ text.
        ok (record { path = exposure_name exposure_id; sha256 = host.platform.sha256_hex text }, r)
