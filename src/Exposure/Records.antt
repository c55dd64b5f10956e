-- ===== src/Exposure/Records.antt =====
-- Reservations, and how src/exposure/ledger.ts reads them and exposure records.
pub mod Laws
use domain_eval_weave.Base.{
  ℕ, String, Bool, true, false, ◌&&◌, not, Option, none, some, List, [], ◌∷◌, map, ◌==◌, map_get,
  sort, join, template, if◌then◌else◌,
}
use domain_eval_weave.Base.Result.{
  Failure, capsule_error, schema_error, Result, ok, err, require, or_throw, ◌>>=◌, ◌>>◌,
}
use domain_eval_weave.Json.{JsonValue, str, num, finite, obj, Fields, end, field, canonical_json}
use domain_eval_weave.Json.Build.{object}
use domain_eval_weave.Platform.{Platform}
use domain_eval_weave.Exposure.Documents.{
  LedgerHost, ExposureRecord, ExposureArm, arm_text, record_json, keys_of, text_field, has_version,
  parse_exposure_record,
}
use domain_eval_weave.Capsule.Schema.Patterns.{id_matches, sha256_matches}

pub record HoldoutIdentity : Type 0 where
  pub task_id : String
  pub public_task_sha256 : String
  pub effective_base_sha256 : String

pub record HoldoutReservation : Type 0 where
  pub identity : HoldoutIdentity
  pub suite_id : String

-- An entry of a directory, and whether it is a physical file of mode 0600.
pub record Entry : Type 0 where
  pub physical : Bool
  pub text : String

abbrev pub Directory : Type 0
Directory = List (String × Entry)

abbrev pub entry_name : String × Entry → String
entry_name (name, entry) = name

abbrev pub file_at : Directory → String → Option (String × Entry)
file_at directory name = map_get entry_name name directory

abbrev pub ledger_error : String → String → Failure
ledger_error code message = capsule_error code message none

unfoldable pub reservation_json : HoldoutReservation → JsonValue
reservation_json r = object (
    ("schema_version", num (finite "2"))
    ∷ ("task_id", str r.identity.task_id)
    ∷ ("public_task_sha256", str r.identity.public_task_sha256)
    ∷ ("effective_base_sha256", str r.identity.effective_base_sha256)
    ∷ ("suite_id", str r.suite_id)
    ∷ [])

abbrev read_text : Failure → Failure → LedgerHost → Entry → Result JsonValue
read_text not_physical not_json host entry =
    require entry.physical not_physical >> or_throw (host.platform.parse_json entry.text) not_json

abbrev pub not_file : Failure
not_file = ledger_error "EXPOSURE_ENTRY_INVALID" "exposure entry must be a physical 0600 file"

abbrev pub record_document : LedgerHost → Entry → Result JsonValue
record_document host entry =
    read_text not_file (ledger_error "EXPOSURE_JSON_INVALID" "exposure entry is not JSON") host
      entry

abbrev pub not_canonical : Failure
not_canonical = ledger_error "EXPOSURE_NOT_CANONICAL" "exposure entry is not canonical JSON"

abbrev pub same_text : String → Entry → Result (Unit {0})
same_text text entry = require (text == entry.text) not_canonical

abbrev pub same_id : ExposureRecord → String → Result (Unit {0})
same_id r expected_id =
    require (r.exposure_id == expected_id)
      (ledger_error "EXPOSURE_FILENAME_MISMATCH" "exposure filename and record id disagree")

-- `readRecord`, of an entry that is there.
unfoldable pub read_record : LedgerHost → Entry → String → Result ExposureRecord
read_record host entry expected_id = record_document host entry >>= λ decoded.
    parse_exposure_record host decoded >>= λ r.
    canonical_json (record_json r) >>= λ text. same_text text entry >> same_id r expected_id >> ok r

abbrev keys_text : JsonValue → String
keys_text (obj fields) = join "," (sort (keys_of fields))
keys_text _ = ""

abbrev fields_in : JsonValue → Fields
fields_in (obj fields) = fields
fields_in _ = end

abbrev reservation_error : String → Failure
reservation_error message = ledger_error "HOLDOUT_RESERVATION_INVALID" message

abbrev pub identity_matches : HoldoutIdentity → Bool
identity_matches i =
    id_matches i.task_id
    && sha256_matches i.public_task_sha256
    && sha256_matches i.effective_base_sha256

abbrev not_normalized : Failure
not_normalized = reservation_error "holdout reservation is not canonical or normalized"

-- `readReservation`, of an entry that is there.
unfoldable pub read_reservation : LedgerHost → Entry → Result HoldoutReservation
read_reservation host entry =
    read_text (reservation_error "holdout reservation must be a physical 0600 file")
      (reservation_error "holdout reservation is not JSON") host entry
    >>= λ decoded.
        require
          (keys_text decoded
            == "effective_base_sha256,public_task_sha256,schema_version,suite_id,task_id")
          (reservation_error "holdout reservation has an unknown shape")
        >> require (has_version "2" (fields_in decoded)) not_normalized
        >> or_throw (text_field "task_id" (fields_in decoded)) not_normalized
        >>= λ task_id.
            or_throw (text_field "public_task_sha256" (fields_in decoded)) not_normalized
            >>= λ public_task_sha256.
                or_throw (text_field "effective_base_sha256" (fields_in decoded)) not_normalized
                >>= λ effective_base_sha256.
                    or_throw (text_field "suite_id" (fields_in decoded)) not_normalized
                    >>= λ suite_id.
                        let identity : HoldoutIdentity = record {
                          task_id = task_id;
                          public_task_sha256 = public_task_sha256;
                          effective_base_sha256 = effective_base_sha256;
                        } in
                        require (identity_matches identity && id_matches suite_id) not_normalized
                        >> canonical_json decoded
                        >>= λ text.
                            require (text == entry.text) not_normalized
                            >> ok (record { identity = identity; suite_id = suite_id })

abbrev pub id_error : String → Failure
id_error message = ledger_error "EXPOSURE_ID_INVALID" message

abbrev pub long_id : Failure
long_id = id_error "derived exposure id is too long"

abbrev pub normalized_parts : String → String → Result (Unit {0})
normalized_parts suite_id task_id =
    require (id_matches suite_id && id_matches task_id)
      (id_error "Suite and Task ids must be normalized")

abbrev pub short_id : String → Result (Unit {0})
short_id id = require (id_matches id) long_id

unfoldable pub phase2_exposure_id : String → String → ExposureArm → Result String
phase2_exposure_id suite_id task_id arm =
    let id : String = template (suite_id ∷ "--" ∷ task_id ∷ "--" ∷ arm_text arm ∷ []) in
    normalized_parts suite_id task_id >> short_id id >> ok id

-- The names of the three files of a reservation.
unfoldable pub reservation_paths : HoldoutIdentity → List String
reservation_paths i =
    template ("task--" ∷ i.task_id ∷ ".json" ∷ [])
    ∷ template ("public--" ∷ i.public_task_sha256 ∷ ".json" ∷ [])
    ∷ template ("base--" ∷ i.effective_base_sha256 ∷ ".json" ∷ [])
    ∷ []

unfoldable pub assert_holdout_identity : HoldoutIdentity → Result (Unit {0})
assert_holdout_identity i = require (identity_matches i) (
    ledger_error "HOLDOUT_IDENTITY_INVALID"
      "holdout Task id and frozen evidence digests must be normalized")
