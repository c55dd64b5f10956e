-- ===== src/Exposure/Write/Replay.antt =====
-- Reading an exposure that was written (src/exposure/ledger.ts).
use domain_eval_weave.Base.{
  ◌≡◌, refl, sym, ap, ◌∙◌, subst, String, true, some, ◌∷◌, ◌==◌, eq_iff, eq_refl, Option-cases, inl,
  inr, template, [],
}
use domain_eval_weave.Base.Result.{Result, ok, require, require_iff, ◌>>◌, >>=-eq-ok, ok-inj}
use domain_eval_weave.Json.{JsonValue, canonical_json}
use domain_eval_weave.Capsule.Schema.Patterns.{id_matches}
use domain_eval_weave.Exposure.Records.{
  Entry, Directory, file_at, record_document, not_file, same_text, same_id, not_canonical,
  read_record, phase2_exposure_id, normalized_parts, short_id, long_id,
}
use domain_eval_weave.Exposure.Documents.{
  LedgerHost, ExposureRecord, record_json, parse_exposure_record, ExposureArm, arm_text,
}
use domain_eval_weave.Exposure.Documents.{record_fits}
use domain_eval_weave.Exposure.Documents.Laws.{
  canonical_record, parse_exposure_record-fits, parse_exposure_record-canonical_record,
}
use domain_eval_weave.Exposure.Records.Laws.{file_at-cons}
use domain_eval_weave.Exposure.Reserve.{Ledger}
use domain_eval_weave.Exposure.Write.{
  prepare_write, exposure_name, frozen, mismatched_id, assert_holdout_reservation, receipt_of,
  publish, ExposureWrite, write_exposure, read_exposure,
}

same_entry :
    (entry : Entry) (other existing : ExposureRecord) (bytes found : String)
    → entry.physical ≡ true
    → canonical_json (record_json other) ≡ ok bytes
    → canonical_json (record_json existing) ≡ ok found
    → (bytes == entry.text) ≡ true
    → other ≡ existing
    → entry ≡ record { physical = true; text = found }
same_entry entry other existing bytes found physical made c same last =
    let again : canonical_json (record_json other) ≡ ok found = rw last c in
    let text : entry.text ≡ found =
      sym ((eq_iff bytes entry.text).0 same) ∙ ok-inj bytes found (sym made ∙ again) in
    λ i. record { physical = physical i; text = text i }

unit_ok : (m : Result (Unit {0})) (u : Unit {0}) → m ≡ ok u → m ≡ ok tt
unit_ok m u h = h

phase2_exposure_id-matches :
    (suite_id task_id : String) (arm : ExposureArm) (id : String)
    → phase2_exposure_id suite_id task_id arm ≡ ok id
    → id_matches id ≡ true
unfolding phase2_exposure_id
phase2_exposure_id-matches suite_id task_id arm id h =
    let made : String = template (suite_id ∷ "--" ∷ task_id ∷ "--" ∷ arm_text arm ∷ []) in
    let (_, both, last) = >>=-eq-ok (normalized_parts suite_id task_id >> short_id made) _ h in
    let (_, _, short) = >>=-eq-ok (normalized_parts suite_id task_id) _ both in
    subst (λ x. id_matches x ≡ true) (ok-inj made id last)
      ((require_iff (id_matches made) long_id).0 (unit_ok _ _ short))

prepare_write-ok :
    (host : LedgerHost) (reservations : Directory) (r : ExposureRecord) (text : String)
    → prepare_write host reservations r ≡ ok text
    → (canonical_json (record_json r) ≡ ok text) × (id_matches r.exposure_id ≡ true)
unfolding prepare_write
prepare_write-ok host reservations r text h =
    let (id, derived, h₁) = >>=-eq-ok (phase2_exposure_id r.suite_id r.task_id r.arm) _ h in
    let named = require (r.exposure_id == id) mismatched_id in
    let (_, both, last) =
      >>=-eq-ok (named >> assert_holdout_reservation host reservations r) _ h₁ in
    let (_, checked, _) = >>=-eq-ok named _ both in
    let same =
      (eq_iff r.exposure_id id).0
        ((require_iff (r.exposure_id == id) mismatched_id).0 (unit_ok _ _ checked)) in
    (last, rw same (phase2_exposure_id-matches r.suite_id r.task_id r.arm id derived))

-- A file with the bytes of a record is read as that record, where the record fits its schema and
-- `JSON.parse` reads back the properties that `canonicalJson` wrote, in their order.
module _ (host : LedgerHost) (r : ExposureRecord) (text : String)
    (written : canonical_json (record_json r) ≡ ok text)
    (parsed : host.platform.parse_json text ≡ some (canonical_record r))
    (fits : record_fits host r ≡ true) where
  read_record-text : read_record host (record { physical = true; text = text }) r.exposure_id ≡ ok r
  unfolding read_record
  read_record-text =
      rw
        (
          parsed,
          parse_exposure_record-canonical_record host r fits,
          written,
          eq_refl text,
          eq_refl r.exposure_id,
        )
        refl

  -- A file that reads as a record has its bytes.
  read_record-bytes :
      (entry : Entry) (id found : String) (existing : ExposureRecord)
      → read_record host entry id ≡ ok existing
      → canonical_json (record_json existing) ≡ ok found
      → entry ≡ record { physical = true; text = found }
  unfolding read_record
  read_record-bytes entry id found existing h c =
      let (decoded', document, h₁) = >>=-eq-ok (record_document host entry) _ h in
      let (other, _, h₂) = >>=-eq-ok (parse_exposure_record host decoded') _ h₁ in
      let (bytes, made, h₃) = >>=-eq-ok (canonical_json (record_json other)) _ h₂ in
      let (_, both, last) = >>=-eq-ok (same_text bytes entry >> same_id other id) _ h₃ in
      let (_, same, _) = >>=-eq-ok (same_text bytes entry) _ both in
      let (_, physical, _) = >>=-eq-ok (require entry.physical not_file) _ document in
      let physical' = (require_iff entry.physical not_file).0 (unit_ok _ _ physical) in
      same_entry entry other existing bytes found physical' made c
        ((require_iff (bytes == entry.text) not_canonical).0 (unit_ok _ _ same))
        (ok-inj other existing last)

  -- What a write that returns leaves at the name of its exposure.
  publish-file :
      (before after : Directory)
      → publish host r text before ≡ ok after
      → (name : String) × (file_at after (exposure_name r.exposure_id)
          ≡ some (name, record { physical = true; text = text }))
  unfolding publish
  publish-file before after h =
      let here = exposure_name r.exposure_id in
      let mine : Entry = record { physical = true; text = text } in
      elim (Option-cases (file_at before here)) [
        | inl e ↦
            let same = ok-inj ((here, mine) ∷ before) after (rw (publish, e) at h) in
            (
              here,
              subst (λ d. file_at d here ≡ some (here, mine)) same
                  (file_at-cons here mine before e),
            )
        | inr ((name, entry), e) ↦
            let (existing, read, h₁) =
              >>=-eq-ok (read_record host entry r.exposure_id) _ (rw (publish, e) at h) in
            let (found, made, h₂) = >>=-eq-ok (canonical_json (record_json existing)) _ h₁ in
            let (_, compared, last) = >>=-eq-ok (require (found == text) frozen) _ h₂ in
            let bytes =
              (eq_iff found text).0
                ((require_iff (found == text) frozen).0 (unit_ok _ _ compared)) in
            let entry_is = read_record-bytes entry r.exposure_id found existing read made in
            let there : file_at before here ≡ some (name, record { physical = true; text = text }) =
              e
              ∙ ap (λ x. some (name, x))
                  (entry_is ∙ ap (λ t. record { physical = true; text = t }) bytes) in
            (name, subst (λ d. file_at d here ≡ some (name, mine)) (ok-inj before after last) there)
      ]

-- Reading back a written exposure returns the record that the input of the write parsed to, with the
-- path and digest that the write returned, where `JSON.parse` reads the bytes that `canonicalJson`
-- writes of the record as its properties, in the order of the bytes.
pub read_exposure-write_exposure :
    (host : LedgerHost) (input : JsonValue) (r : ExposureRecord) (text : String)
    → parse_exposure_record host input ≡ ok r
    → canonical_json (record_json r) ≡ ok text
    → host.platform.parse_json text ≡ some (canonical_record r)
    → (before after : Ledger) (receipt : ExposureWrite)
    → write_exposure host input before ≡ ok (after, receipt)
    → read_exposure host r.exposure_id after ≡ ok (receipt, r)
unfolding write_exposure read_exposure
read_exposure-write_exposure host input r text given written parsed before after receipt h =
    let fits = parse_exposure_record-fits host input r given in
    let (r', given', h₀) = >>=-eq-ok (parse_exposure_record host input) _ h in
    let (bytes, prepared', h₁) = >>=-eq-ok (prepare_write host before.reservations r') _ h₀ in
    let (exposures, published', h₂) = >>=-eq-ok (publish host r' bytes before.exposures) _ h₁ in
    let one : r' ≡ r = ok-inj r' r (sym given' ∙ given) in
    let prepared : prepare_write host before.reservations r ≡ ok bytes =
      subst (λ q. prepare_write host before.reservations q ≡ ok bytes) one prepared' in
    let (made, valid) = prepare_write-ok host before.reservations r bytes prepared in
    let same = ok-inj bytes text (sym made ∙ written) in
    let published : publish host r text before.exposures ≡ ok exposures =
      rw (one, same) at published' in
    let (name, found) =
      publish-file host r text written parsed fits before.exposures exposures published in
    let result =
      ok-inj (record before { exposures = exposures }, receipt_of host r' bytes) (after, receipt)
        h₂ in
    let directory : exposures ≡ after.exposures = ap (λ p. p.0.exposures) result in
    let receipts : receipt_of host r text ≡ receipt =
      (λ i. receipt_of host (sym one i) (sym same i)) ∙ ap (λ p. p.1) result in
    let there : file_at after.exposures (exposure_name r.exposure_id)
        ≡ some (name, record { physical = true; text = text }) =
      subst
        (λ d.
          file_at d (exposure_name r.exposure_id)
          ≡ some (name, record { physical = true; text = text }))
        directory found in
    rw (valid, there, read_record-text host r text written parsed fits, written)
      (ap (λ w. ok (w, r)) receipts)
