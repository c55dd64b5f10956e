-- ===== src/Exposure/Documents/Laws.antt =====
-- An exposure record that is written and parsed (src/contracts/phase2.ts).
use domain_eval_weave.Base.{◌≡◌, refl, subst, true, some, sort, sort_by, text_leb}
use domain_eval_weave.Base.Result.{ok, require, require_iff, >>=-eq-ok, ok-inj}
use domain_eval_weave.Json.{JsonValue, key_leb}
use domain_eval_weave.Json.Build.{object}
use domain_eval_weave.Exposure.Documents.{
  Bucket, trigger, non_trigger, holdout, ExposureArm, control, treatment, ExposureRecord,
  LedgerHost, bucket_text, arm_text, bucket_of, arm_of, record_fields, record_fits, invalid_record,
  decode_record, parse_exposure_record,
}

-- The properties of a record in the order in which `canonicalJson` writes them.
unfoldable pub canonical_record : ExposureRecord → JsonValue
canonical_record r = object (sort_by key_leb (record_fields r))

bucket_of-bucket_text : (b : Bucket) → bucket_of (bucket_text b) ≡ some b
bucket_of-bucket_text trigger = refl
bucket_of-bucket_text non_trigger = refl
bucket_of-bucket_text holdout = refl

arm_of-arm_text : (a : ExposureArm) → arm_of (arm_text a) ≡ some a
arm_of-arm_text control = refl
arm_of-arm_text treatment = refl

pub decode_record-canonical_record :
    (r : ExposureRecord) → decode_record (canonical_record r) ≡ ok r
unfolding decode_record canonical_record sort sort_by text_leb key_leb
decode_record-canonical_record r = rw (bucket_of-bucket_text r.bucket, arm_of-arm_text r.arm) refl

-- A record that is parsed fits its schema.
pub parse_exposure_record-fits :
    (host : LedgerHost) (input : JsonValue) (r : ExposureRecord)
    → parse_exposure_record host input ≡ ok r
    → record_fits host r ≡ true
unfolding parse_exposure_record
parse_exposure_record-fits host input r h =
    let (found, decoded, h₁) = >>=-eq-ok (decode_record input) _ h in
    let (_, fits, same) = >>=-eq-ok (require (record_fits host found) invalid_record) _ h₁ in
    subst (λ x. record_fits host x ≡ true) (ok-inj found r same) ((require_iff _ _).0 fits)

pub parse_exposure_record-canonical_record :
    (host : LedgerHost) (r : ExposureRecord)
    → record_fits host r ≡ true
    → parse_exposure_record host (canonical_record r) ≡ ok r
unfolding parse_exposure_record
parse_exposure_record-canonical_record host r fits =
    rw (decode_record-canonical_record r, fits) refl
