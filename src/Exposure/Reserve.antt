-- ===== src/Exposure/Reserve.antt =====
-- `list`, `assertHoldoutUnexposed` and `reserveHoldout` of src/exposure/ledger.ts.
pub mod Laws
use domain_eval_weave.Base.{
  ℕ, ◌-◌, String, Bool, true, false, ◌&&◌, ◌||◌, not, Option, none, some, List, [], ◌∷◌, ◌==◌, any,
  sort_by, text_leb, template, take, drop, codes_count, if◌then◌else◌,
}
use domain_eval_weave.Base.Result.{Failure, Result, ok, err, require, map_results, ◌>>=◌, ◌>>◌}
use domain_eval_weave.Json.{canonical_json}
use domain_eval_weave.Capsule.Schema.Patterns.{id_matches}
use domain_eval_weave.Exposure.Records.{
  HoldoutIdentity, HoldoutReservation, Entry, Directory, entry_name, file_at, ledger_error,
  reservation_json, read_record, read_reservation, reservation_paths, assert_holdout_identity,
  id_error,
}
use domain_eval_weave.Exposure.Documents.{LedgerHost, ExposureRecord}

pub record Ledger : Type 0 where
  pub exposures : Directory
  pub reservations : Directory

-- `name.endsWith(".json")`
abbrev ends_json : String → Bool
ends_json name = drop (codes_count name - 5) name == ".json"

abbrev list_entry : LedgerHost → String × Entry → Result ExposureRecord
list_entry host (name, entry) =
    let id : String = take (codes_count name - 5) name in
    require (ends_json name)
      (ledger_error "EXPOSURE_ENTRY_UNKNOWN" "exposure root contains an unknown entry")
    >> require (id_matches id)
        (ledger_error "EXPOSURE_FILENAME_INVALID" "exposure filename is not normalized")
    >> read_record host entry id

abbrev by_name : String × Entry → String × Entry → Bool
by_name (m, d) (n, e) = text_leb m n

-- `list`
unfoldable pub list_records : LedgerHost → Directory → Result (List ExposureRecord)
list_records host exposures = map_results (list_entry host) (sort_by by_name exposures)

abbrev pub shares : HoldoutIdentity → ExposureRecord → Bool
shares i r =
    (r.task_id == i.task_id)
    || (r.public_task_sha256 == i.public_task_sha256)
    || (r.effective_base_sha256 == i.effective_base_sha256)

unfoldable pub assert_holdout_unexposed :
    LedgerHost → Directory → HoldoutIdentity → Result (Unit {0})
assert_holdout_unexposed host exposures i =
    assert_holdout_identity i >> list_records host exposures >>= λ records.
    require (not (any (shares i) records)) (
      ledger_error "HOLDOUT_ALREADY_EXPOSED" (
        template (
          "holdout Task or its frozen evidence has an existing model exposure: " ∷ i.task_id ∷ [])))

abbrev already_reserved : HoldoutIdentity → Failure
already_reserved i =
    ledger_error "HOLDOUT_ALREADY_RESERVED"
      (template ("holdout Task or its frozen evidence is already reserved: " ∷ i.task_id ∷ []))

-- A file that is there must hold this reservation.
abbrev pub same_reservation : LedgerHost → HoldoutIdentity → String → Entry → Result (Unit {0})
same_reservation host i text entry = read_reservation host entry >>= λ existing.
    canonical_json (reservation_json existing) >>= λ found.
    require (found == text) (already_reserved i)

-- One round of the loop over the three paths.
unfoldable pub link_reservation :
    LedgerHost → HoldoutIdentity → String → String → Directory → Result Directory
link_reservation host i text name reservations = elim (file_at reservations name) [
  | none ↦ ok ((name, record { physical = true; text = text }) ∷ reservations)
  | some (n, entry) ↦ same_reservation host i text entry >> ok reservations
]

-- The loop. What was linked before a round that throws stays.
unfoldable pub link_all :
    LedgerHost → HoldoutIdentity → String → List String → Directory → Directory × Result (Unit {0})
link_all host i text [] reservations = (reservations, ok tt)
link_all host i text (name ∷ names) reservations =
    elim (link_reservation host i text name reservations) [
      | ok linked ↦ link_all host i text names linked
      | err failure ↦ (reservations, err failure)
    ]

-- The checks before the loop, and the text of the reservation.
unfoldable pub begin_reservation : LedgerHost → Ledger → HoldoutIdentity → String → Result String
begin_reservation host ledger i suite_id =
    assert_holdout_identity i
    >> require (id_matches suite_id) (id_error "holdout Suite id must be normalized")
    >> assert_holdout_unexposed host ledger.exposures i
    >> canonical_json (reservation_json (record { identity = i; suite_id = suite_id }))

-- `reserveHoldout`, with the ledger it leaves where it throws too.
unfoldable pub reserve_holdout :
    LedgerHost → HoldoutIdentity → String → Ledger → Ledger × Result (Unit {0})
reserve_holdout host i suite_id ledger = elim (begin_reservation host ledger i suite_id) [
  | err failure ↦ (ledger, err failure)
  | ok text ↦
      let (reservations, outcome) =
        link_all host i text (reservation_paths i) ledger.reservations in
      (record ledger { reservations = reservations }, outcome)
]
