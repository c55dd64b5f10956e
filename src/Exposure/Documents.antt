-- ===== src/Exposure/Documents.antt =====
-- Exposure records: `exposureRecordSchema` and `parseExposureRecord` (src/contracts/phase2.ts), with
-- `parseArtifactRef` (src/contracts/artifact-ref.ts).
pub mod Laws
use domain_eval_weave.Base.{
  ℕ, ℤ, int_leb, String, Bool, true, false, ◌&&◌, not, Option, none, some, List, [], ◌∷◌, map, ◌==◌,
  sort, if◌then◌else◌, all, all_codes, starts_with, drop, split,
}
use domain_eval_weave.Base.Result.{
  Failure, schema_error, Result, ok, err, require, or_throw, ◌>>=◌, ◌>>◌,
}
use domain_eval_weave.Json.{JsonValue, str, num, finite, obj, Fields, end, field}
use domain_eval_weave.Json.Build.{object}
use domain_eval_weave.Platform.{Platform}
use domain_eval_weave.Capsule.Schema.Patterns.{id_code, id_matches, sha256_matches}

pub data Bucket : Type 0 where
  trigger non_trigger holdout : Bucket

pub data ExposureArm : Type 0 where
  control treatment : ExposureArm

pub record ArtifactPointer : Type 0 where
  pub ref : String
  pub sha256 : String

pub record ExposureRecord : Type 0 where
  pub exposure_id : String
  pub suite_id : String
  pub campaign_id : String
  pub episode_id : String
  pub session_id : String
  pub task_id : String
  pub bucket : Bucket
  pub arm : ExposureArm
  pub variant_digest : String
  pub public_task_sha256 : String
  pub effective_base_sha256 : String
  pub candidate_archive : ArtifactPointer
  pub registry_digest : String
  pub binding_digest : String
  pub started_at : String
  pub ended_at : String

-- What the ledger takes from its host: SHA-256 and `JSON.parse`, the test of
-- `z.iso.datetime({ offset: true })`, and `Date.parse`, with `none` for NaN.
pub record LedgerHost : Type 0 where
  pub platform : Platform
  pub is_datetime : String → Bool
  pub date_parse : String → Option ℤ

abbrev pub bucket_text : Bucket → String
bucket_text trigger = "trigger"
bucket_text non_trigger = "non-trigger"
bucket_text holdout = "holdout"

abbrev pub arm_text : ExposureArm → String
arm_text control = "control"
arm_text treatment = "treatment"

-- The properties of a record, in the order of its schema.
abbrev pub record_fields : ExposureRecord → List (String × JsonValue)
record_fields r =
    ("schema_version", num (finite "1"))
    ∷ ("exposure_id", str r.exposure_id)
    ∷ ("suite_id", str r.suite_id)
    ∷ ("campaign_id", str r.campaign_id)
    ∷ ("episode_id", str r.episode_id)
    ∷ ("session_id", str r.session_id)
    ∷ ("task_id", str r.task_id)
    ∷ ("bucket", str (bucket_text r.bucket))
    ∷ ("arm", str (arm_text r.arm))
    ∷ ("variant_digest", str r.variant_digest)
    ∷ ("public_task_sha256", str r.public_task_sha256)
    ∷ ("effective_base_sha256", str r.effective_base_sha256)
    ∷ (
      "candidate_archive",
      object
          (("ref", str r.candidate_archive.ref) ∷ ("sha256", str r.candidate_archive.sha256) ∷ []),
    )
    ∷ ("registry_digest", str r.registry_digest)
    ∷ ("binding_digest", str r.binding_digest)
    ∷ ("started_at", str r.started_at)
    ∷ ("ended_at", str r.ended_at)
    ∷ []

unfoldable pub record_json : ExposureRecord → JsonValue
record_json r = object (record_fields r)

abbrev pub keys_of : Fields → List String
keys_of end = []
keys_of (field key value rest) = key ∷ keys_of rest

-- `typeof record[key] === "string" ? record[key] : undefined`
abbrev pub text_field : String → Fields → Option String
text_field key end = none
text_field key (field k (str s) rest) =
    let later = text_field key rest in if k == key then some s else later
text_field key (field k value rest) = text_field key rest

-- `schema_version`, a number of the given text
abbrev pub has_version : String → Fields → Bool
has_version version end = false
has_version version (field k (num (finite n)) rest) =
    let later = has_version version rest in if k == "schema_version" then n == version else later
has_version version (field k value rest) = has_version version rest

abbrev safe_segment : String → Bool
safe_segment segment =
    not (segment == "")
    && not (segment == ".")
    && not (segment == "..")
    && all_codes id_code segment

-- `parseArtifactRef` does not throw; 20 is the length of its prefix.
unfoldable pub artifact_ref_fits : String → Bool
unfolding all_codes starts_with drop split
artifact_ref_fits ref =
    starts_with ref "artifact://campaign/"
    && not (drop 20 ref == "")
    && all safe_segment (split b'/' (drop 20 ref))

abbrev date_leb : Option ℤ → Option ℤ → Bool
date_leb (some a) (some b) = int_leb a b
date_leb _ _ = false

-- The patterns of `exposureRecordSchema` and its refinement.
unfoldable pub record_fits : LedgerHost → ExposureRecord → Bool
unfolding artifact_ref_fits
record_fits host r =
    id_matches r.exposure_id
    && id_matches r.suite_id
    && id_matches r.campaign_id
    && id_matches r.episode_id
    && id_matches r.session_id
    && id_matches r.task_id
    && sha256_matches r.variant_digest
    && sha256_matches r.public_task_sha256
    && sha256_matches r.effective_base_sha256
    && artifact_ref_fits r.candidate_archive.ref
    && sha256_matches r.candidate_archive.sha256
    && sha256_matches r.registry_digest
    && sha256_matches r.binding_digest
    && host.is_datetime r.started_at
    && host.is_datetime r.ended_at
    && date_leb (host.date_parse r.started_at) (host.date_parse r.ended_at)

abbrev pub invalid_record : Failure
invalid_record = schema_error "invalid exposure record"

abbrev same_texts : List String → List String → Bool
same_texts [] [] = true
same_texts [] (y ∷ ys) = false
same_texts (x ∷ xs) [] = false
same_texts (x ∷ xs) (y ∷ ys) = x == y && same_texts xs ys

-- `z.strictObject`: the object has exactly these keys, which are given in order.
abbrev has_keys : List String → Fields → Bool
has_keys keys fields = same_texts (sort (keys_of fields)) keys

abbrev record_keys : List String
record_keys =
    "arm" ∷ "binding_digest" ∷ "bucket" ∷ "campaign_id" ∷ "candidate_archive"
    ∷ "effective_base_sha256" ∷ "ended_at" ∷ "episode_id" ∷ "exposure_id" ∷ "public_task_sha256"
    ∷ "registry_digest" ∷ "schema_version" ∷ "session_id" ∷ "started_at" ∷ "suite_id" ∷ "task_id"
    ∷ "variant_digest" ∷ []

abbrev text_at : String → Fields → Result String
text_at key fields = or_throw (text_field key fields) invalid_record

abbrev object_field : String → Fields → Option Fields
object_field key end = none
object_field key (field k (obj inner) rest) =
    let later = object_field key rest in if k == key then some inner else later
object_field key (field k value rest) = object_field key rest

abbrev pub bucket_of : String → Option Bucket
bucket_of text =
    if text == "trigger"
    then some trigger
    else if text == "non-trigger"
    then some non_trigger
    else if text == "holdout"
    then some holdout
    else none

abbrev pub arm_of : String → Option ExposureArm
arm_of text =
    if text == "control" then some control else if text == "treatment" then some treatment else none

abbrev pointer_in : Fields → Result ArtifactPointer
pointer_in fields = do
  require (has_keys ("ref" ∷ "sha256" ∷ []) fields) invalid_record
  ref ← text_at "ref" fields
  sha256 ← text_at "sha256" fields
  ok (record { ref = ref; sha256 = sha256 })

abbrev record_in : Fields → Result ExposureRecord
record_in fields = do
  require (has_keys record_keys fields) invalid_record
  require (has_version "1" fields) invalid_record
  exposure_id ← text_at "exposure_id" fields
  suite_id ← text_at "suite_id" fields
  campaign_id ← text_at "campaign_id" fields
  episode_id ← text_at "episode_id" fields
  session_id ← text_at "session_id" fields
  task_id ← text_at "task_id" fields
  bucket_name ← text_at "bucket" fields
  bucket ← or_throw (bucket_of bucket_name) invalid_record
  arm_name ← text_at "arm" fields
  arm ← or_throw (arm_of arm_name) invalid_record
  variant_digest ← text_at "variant_digest" fields
  public_task_sha256 ← text_at "public_task_sha256" fields
  effective_base_sha256 ← text_at "effective_base_sha256" fields
  archive ← or_throw (object_field "candidate_archive" fields) invalid_record
  candidate_archive ← pointer_in archive
  registry_digest ← text_at "registry_digest" fields
  binding_digest ← text_at "binding_digest" fields
  started_at ← text_at "started_at" fields
  ended_at ← text_at "ended_at" fields
  ok (record {
    exposure_id = exposure_id;
    suite_id = suite_id;
    campaign_id = campaign_id;
    episode_id = episode_id;
    session_id = session_id;
    task_id = task_id;
    bucket = bucket;
    arm = arm;
    variant_digest = variant_digest;
    public_task_sha256 = public_task_sha256;
    effective_base_sha256 = effective_base_sha256;
    candidate_archive = candidate_archive;
    registry_digest = registry_digest;
    binding_digest = binding_digest;
    started_at = started_at;
    ended_at = ended_at;
  })

-- The shape of an exposure record: its keys and the types of its values.
unfoldable pub decode_record : JsonValue → Result ExposureRecord
unfolding sort
decode_record (obj fields) = record_in fields
decode_record _ = err invalid_record

unfoldable pub parse_exposure_record : LedgerHost → JsonValue → Result ExposureRecord
unfolding decode_record record_fits
parse_exposure_record host input =
    decode_record input >>= λ r. require (record_fits host r) invalid_record >> ok r
