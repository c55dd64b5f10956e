-- ===== src/Tests/Exposures.antt =====
-- A Suite that reserves a holdout Task and writes the exposures of both arms.
use domain_eval_weave.Base.{
  ◌≡◌, refl, String, true, some, pos, all_codes, codes_count, drop, split, [], ◌∷◌, if◌then◌else◌,
  starts_with, inl, inr, All,
}
use domain_eval_weave.Base.Result.{Result, ok}
use domain_eval_weave.Json.Quote.{quote}
use domain_eval_weave.Json.{JsonValue, str, num, finite, obj, field, end, canonical_json}
use domain_eval_weave.Base.{sort_by, join, sort, text_leb, template}
use domain_eval_weave.Capsule.Schema.Patterns.{id_matches, sha256_matches}
use domain_eval_weave.Exposure.Records.{
  assert_holdout_identity, reservation_json, read_reservation, phase2_exposure_id, HoldoutIdentity,
  reservation_paths,
}
use domain_eval_weave.Exposure.Documents.{
  parse_exposure_record, decode_record, record_fits, artifact_ref_fits, LedgerHost, ExposureRecord,
  holdout, control, treatment, ExposureArm, record_json,
}
use domain_eval_weave.Exposure.Documents.Laws.{canonical_record}
use domain_eval_weave.Exposure.Records.Laws.{Grows}
use domain_eval_weave.Exposure.Reserve.{
  Ledger, begin_reservation, reserve_holdout, assert_holdout_unexposed, list_records, link_all,
  link_reservation,
}
use domain_eval_weave.Exposure.Reserve.Laws.{Holds, reserve_holdout-Holds, reserve_holdout-Grows}
use domain_eval_weave.Exposure.Write.{
  prepare_write, publish, assert_holdout_reservation, check_path, ExposureWrite, write_exposure,
  read_exposure,
}
use domain_eval_weave.Exposure.Write.Laws.{SameOwner}
use domain_eval_weave.Exposure.Write.Replay.{read_exposure-write_exposure}
use domain_eval_weave.Exposure.Trace.{Writing, World, start_world, check, Steps, stay, followed_by}
use domain_eval_weave.Exposure.Trace.Laws.{Steps-SameOwner}
use domain_eval_weave.Tests.{digest, is_ok, the_value, the_value-ok}

abbrev identity : HoldoutIdentity
identity = record { task_id = "task"; public_task_sha256 = digest; effective_base_sha256 = digest }

abbrev exposure_of : ExposureArm → String → ExposureRecord
exposure_of arm id = record {
  exposure_id = id;
  suite_id = "suite";
  campaign_id = "campaign";
  episode_id = "episode";
  session_id = "session";
  task_id = "task";
  bucket = holdout;
  arm = arm;
  variant_digest = digest;
  public_task_sha256 = digest;
  effective_base_sha256 = digest;
  candidate_archive = record { ref = "artifact://campaign/archive.tar"; sha256 = digest };
  registry_digest = digest;
  binding_digest = digest;
  started_at = "2026-01-01T00:00:00Z";
  ended_at = "2026-01-01T00:01:00Z";
}

abbrev first : ExposureRecord
first = exposure_of control "suite--task--control"

abbrev second : ExposureRecord
second = exposure_of treatment "suite--task--treatment"

abbrev reservation_value : JsonValue
reservation_value = obj (
    field "schema_version" (num (finite "2")) (
      field "task_id" (str "task") (
        field "public_task_sha256" (str digest)
          (field "effective_base_sha256" (str digest) (field "suite_id" (str "suite") end)))))

-- `JSON.parse` tells a reservation from a record by its first key.
abbrev reservation_prefix : String
reservation_prefix = "{\"effective_base_sha256\":"

abbrev host : LedgerHost
host = record {
  platform = record {
    sha256_hex = λ s. digest;
    parse_json = λ s.
        some
          (if starts_with s reservation_prefix then reservation_value else canonical_record first);
  };
  is_datetime = λ s. true;
  date_parse = λ s. some (pos 0);
}

abbrev empty : Ledger
empty = record { exposures = []; reservations = [] }

abbrev reserved : Ledger
reserved = (reserve_holdout host identity "suite" empty).0

reserved_is_ok : (reserve_holdout host identity "suite" empty).1 ≡ ok tt
unfolding reserve_holdout begin_reservation assert_holdout_identity id_matches sha256_matches
    assert_holdout_unexposed list_records sort_by canonical_json reservation_json text_leb link_all
    reservation_paths link_reservation template join quote sort
reserved_is_ok = refl

reserve_holdout-Holds_example :
    (text : String) × (begin_reservation host empty identity "suite" ≡ ok text)
    × All (Holds host identity text reserved.reservations) (reservation_paths identity)
reserve_holdout-Holds_example =
    reserve_holdout-Holds host identity "suite" empty reserved (λ i. (reserved, reserved_is_ok i))

reserve_holdout-Grows_example :
    ((reserve_holdout host identity "other" reserved).0.exposures ≡ reserved.exposures)
    × Grows reserved.reservations (reserve_holdout host identity "other" reserved).0.reservations
reserve_holdout-Grows_example = reserve_holdout-Grows host identity "other" reserved

abbrev first_result : Result String
first_result = prepare_write host reserved.reservations first

abbrev second_result : Result String
second_result = prepare_write host reserved.reservations second

first_is_ok : is_ok first_result ≡ true
unfolding prepare_write assert_holdout_reservation check_path read_reservation phase2_exposure_id
    starts_with record_json reserve_holdout begin_reservation assert_holdout_identity id_matches
    sha256_matches assert_holdout_unexposed list_records sort_by canonical_json reservation_json
    text_leb link_all reservation_paths link_reservation template join quote sort
first_is_ok = refl

second_is_ok : is_ok second_result ≡ true
unfolding prepare_write assert_holdout_reservation check_path read_reservation phase2_exposure_id
    starts_with record_json reserve_holdout begin_reservation assert_holdout_identity id_matches
    sha256_matches assert_holdout_unexposed list_records sort_by canonical_json reservation_json
    text_leb link_all reservation_paths link_reservation template join quote sort
second_is_ok = refl

abbrev first_write : Writing
first_write = record { exposure = first; text = the_value first_result first_is_ok }

abbrev second_write : Writing
second_write = record { exposure = second; text = the_value second_result second_is_ok }

abbrev both_checked : World
both_checked = record (start_world reserved) { writing = second_write ∷ first_write ∷ [] }

both_path : Steps host (start_world reserved) both_checked
both_path =
    followed_by
      (followed_by stay
        (check first (the_value first_result first_is_ok) (the_value-ok first_result first_is_ok)))
      (check second (the_value second_result second_is_ok)
        (the_value-ok second_result second_is_ok))

Steps-SameOwner_example :
    SameOwner second first
    × Grows reserved.exposures reserved.exposures
    × Grows reserved.reservations reserved.reservations
Steps-SameOwner_example =
    Steps-SameOwner host reserved both_checked second_write first_write both_path (inl refl)
      (inr (inl refl)) refl refl (inl refl)

written_is_ok : is_ok (write_exposure host (record_json first) reserved) ≡ true
unfolding parse_exposure_record decode_record record_fits artifact_ref_fits all_codes codes_count
    drop split write_exposure publish prepare_write assert_holdout_reservation check_path
    read_reservation phase2_exposure_id starts_with record_json reserve_holdout begin_reservation
    assert_holdout_identity id_matches sha256_matches assert_holdout_unexposed list_records sort_by
    canonical_json reservation_json text_leb link_all reservation_paths link_reservation template
    join quote sort
written_is_ok = refl

abbrev frozen_first : Ledger × ExposureWrite
frozen_first = the_value (write_exposure host (record_json first) reserved) written_is_ok

text_is_ok : is_ok (canonical_json (record_json first)) ≡ true
unfolding canonical_json record_json text_leb template sort_by join quote sort
text_is_ok = refl

abbrev first_text : String
first_text = the_value (canonical_json (record_json first)) text_is_ok

first_parsed : parse_exposure_record host (record_json first) ≡ ok first
unfolding parse_exposure_record decode_record record_fits artifact_ref_fits record_json id_matches
    sha256_matches all_codes codes_count starts_with drop split sort sort_by text_leb
first_parsed = refl

first_read : host.platform.parse_json first_text ≡ some (canonical_record first)
unfolding canonical_record starts_with canonical_json record_json text_leb template join quote
    sort_by
first_read = refl

read_exposure-write_exposure_example :
    read_exposure host "suite--task--control" frozen_first.0 ≡ ok (frozen_first.1, first)
read_exposure-write_exposure_example =
    read_exposure-write_exposure host (record_json first) first first_text first_parsed
      (the_value-ok (canonical_json (record_json first)) text_is_ok) first_read reserved
      frozen_first.0 frozen_first.1
      (the_value-ok (write_exposure host (record_json first) reserved) written_is_ok)
