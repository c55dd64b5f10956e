-- ===== src/Exposure/Write/Laws.antt =====
-- Whose exposures a reservation lets through (src/exposure/ledger.ts).
use domain_eval_weave.Base.{
  ◌≡◌, refl, sym, ap, ◌∙◌, subst, String, true, false, some, [], ◌∷◌, ◌==◌, template, All, All-map,
  ◌⊎◌, ◌↔◌, inl, inr, arith, eq_iff, Option-cases, some-inj,
}
use domain_eval_weave.Base.Result.{ok, require, require_iff, for_each-ok, >>=-eq-ok, ok-inj}
use domain_eval_weave.Exposure.Records.{
  HoldoutReservation, Entry, Directory, file_at, read_record, read_reservation, reservation_paths,
}
use domain_eval_weave.Exposure.Documents.{LedgerHost, Bucket, holdout, ExposureRecord, record_json}
use domain_eval_weave.Json.{canonical_json}
use domain_eval_weave.Exposure.Records.Laws.{Grows, Grows-cons}
use domain_eval_weave.Exposure.Write.{
  identity_of, reserves, mismatched_reservation, check_path, is_holdout, assert_holdout_reservation,
  exposure_name, frozen, publish,
}

Bucket-cases : (b : Bucket) → (b ≡ holdout) ⊎ (is_holdout b ≡ false)
Bucket-cases b = ground arith

-- Two exposures share the Task id, the digest of the public Task or that of its base.
abbrev pub Shares : ExposureRecord → ExposureRecord → Type 0
Shares r s =
    (r.task_id ≡ s.task_id)
    ⊎ (r.public_task_sha256 ≡ s.public_task_sha256)
    ⊎ (r.effective_base_sha256 ≡ s.effective_base_sha256)

-- They have one Suite and the same frozen evidence.
pub record SameOwner (r s : ExposureRecord) : Type 0 where
  pub suite : r.suite_id ≡ s.suite_id
  pub task : r.task_id ≡ s.task_id
  pub public_task : r.public_task_sha256 ≡ s.public_task_sha256
  pub effective_base : r.effective_base_sha256 ≡ s.effective_base_sha256

module _ (host : LedgerHost) (directory : Directory) where
  -- The file at a path is a reservation for the record's Suite and frozen evidence.
  record IsReserved (r : ExposureRecord) (name : String) : Type 0 where
    file : String × Entry
    found : file_at directory name ≡ some file
    reservation : HoldoutReservation
    reads : read_reservation host file.1 ≡ ok reservation
    matches : reserves reservation r ≡ true

  check_path_iff :
      (r : ExposureRecord) (name : String)
      → (check_path host directory r name ≡ ok tt) ↔ IsReserved r name
  unfolding check_path
  check_path_iff r name = elim (Option-cases (file_at directory name)) [
    | inl e ↦ ((λ h. absurd (ground arith)), (λ k. let clash = sym e ∙ k.found in cc))
    | inr (file, e) ↦ (
      (λ h.
          let (reservation, reads, last) =
            >>=-eq-ok (read_reservation host file.1) _ (rw (check_path, e) at h) in
          record {
            file = file;
            found = e;
            reservation = reservation;
            reads = reads;
            matches = (require_iff (reserves reservation r) mismatched_reservation).0 last;
          }),
      (λ k.
          let same = some-inj k.file file (sym k.found ∙ e) in
          let reads : read_reservation host file.1 ≡ ok k.reservation = rw (← same) k.reads in
          rw (check_path, e, reads) (rw k.matches refl)),
    )
  ]

  -- The check on a holdout exposure passes exactly when its three paths are reserved for it.
  assert_holdout_reservation_iff :
      (r : ExposureRecord)
      → r.bucket ≡ holdout
      → (assert_holdout_reservation host directory r ≡ ok tt)
        ↔ All (IsReserved r) (reservation_paths (identity_of r))
  unfolding assert_holdout_reservation
  assert_holdout_reservation_iff r b =
      let test : is_holdout r.bucket ≡ true = ap is_holdout b in
      rw test (
        for_each-ok (check_path host directory r) (IsReserved r) (reservation_paths (identity_of r))
          (check_path_iff r))

  -- Two exposures for which one path is reserved have one owner.
  IsReserved-SameOwner :
      (r s : ExposureRecord) (m n : String)
      → m ≡ n
      → IsReserved r m
      → IsReserved s n
      → SameOwner r s
  IsReserved-SameOwner r s m n names h k =
      let same_file =
        some-inj h.file k.file (sym h.found ∙ ap (file_at directory) names ∙ k.found) in
      let again : read_reservation host k.file.1 ≡ ok h.reservation = rw (← same_file) h.reads in
      let same = ok-inj h.reservation k.reservation (sym again ∙ k.reads) in
      let mine : reserves k.reservation r ≡ true = rw (← same) h.matches in
      record {
        suite = ground (
          arith,
          mine,
          k.matches,
          eq_iff k.reservation.suite_id r.suite_id,
          eq_iff k.reservation.suite_id s.suite_id,
        );
        task = ground (
          arith,
          mine,
          k.matches,
          eq_iff k.reservation.identity.task_id r.task_id,
          eq_iff k.reservation.identity.task_id s.task_id,
        );
        public_task = ground (
          arith,
          mine,
          k.matches,
          eq_iff k.reservation.identity.public_task_sha256 r.public_task_sha256,
          eq_iff k.reservation.identity.public_task_sha256 s.public_task_sha256,
        );
        effective_base = ground (
          arith,
          mine,
          k.matches,
          eq_iff k.reservation.identity.effective_base_sha256 r.effective_base_sha256,
          eq_iff k.reservation.identity.effective_base_sha256 s.effective_base_sha256,
        );
      }

  -- Two holdout exposures that are both let through and share a name have one owner.
  pub assert_holdout_reservation-SameOwner :
      (r s : ExposureRecord)
      → r.bucket ≡ holdout
      → s.bucket ≡ holdout
      → assert_holdout_reservation host directory r ≡ ok tt
      → assert_holdout_reservation host directory s ≡ ok tt
      → Shares r s
      → SameOwner r s
  unfolding reservation_paths
  assert_holdout_reservation-SameOwner r s b c h k shared =
      let mine = (assert_holdout_reservation_iff r b).0 h in
      let theirs = (assert_holdout_reservation_iff s c).0 k in
      elim shared [
        | inl e ↦
            IsReserved-SameOwner r s _ _ (ap (λ x. template ("task--" ∷ x ∷ ".json" ∷ [])) e) mine.0
              theirs.0
        | inr (inl e) ↦
            IsReserved-SameOwner r s _ _ (ap (λ x. template ("public--" ∷ x ∷ ".json" ∷ [])) e)
              mine.1.0 theirs.1.0
        | inr (inr e) ↦
            IsReserved-SameOwner r s _ _ (ap (λ x. template ("base--" ∷ x ∷ ".json" ∷ [])) e)
              mine.1.1.0 theirs.1.1.0
      ]

module _ (host : LedgerHost) (before after : Directory) (grows : Grows before after)
    (r : ExposureRecord) where
  IsReserved-Grows : (name : String) → IsReserved host before r name → IsReserved host after r name
  IsReserved-Grows name h = record {
    file = h.file;
    found = grows name h.file h.found;
    reservation = h.reservation;
    reads = h.reads;
    matches = h.matches;
  }

  -- What is let through stays let through as reservations are added.
  pub assert_holdout_reservation-Grows :
      assert_holdout_reservation host before r ≡ ok tt
      → assert_holdout_reservation host after r ≡ ok tt
  unfolding assert_holdout_reservation
  assert_holdout_reservation-Grows h = elim (Bucket-cases r.bucket) [
    | inl b ↦ (assert_holdout_reservation_iff host after r b).1 (
        All-map (reservation_paths (identity_of r)) IsReserved-Grows
          ((assert_holdout_reservation_iff host before r b).0 h))
    | inr b ↦ rw (assert_holdout_reservation, b) refl
  ]

-- Publishing an exposure changes no file that is there.
pub publish-Grows :
    (host : LedgerHost) (r : ExposureRecord) (text : String) (before after : Directory)
    → publish host r text before ≡ ok after
    → Grows before after
unfolding publish
publish-Grows host r text before after h =
    elim (Option-cases (file_at before (exposure_name r.exposure_id))) [
      | inl e ↦
          let entry : Entry = record { physical = true; text = text } in
          subst (Grows before)
            (ok-inj ((exposure_name r.exposure_id, entry) ∷ before) after (rw (publish, e) at h))
            (Grows-cons (exposure_name r.exposure_id, entry) before)
      | inr (file, e) ↦
          let (existing, _, h₁) =
            >>=-eq-ok (read_record host file.1 r.exposure_id) _ (rw (publish, e) at h) in
          let (found, _, h₂) = >>=-eq-ok (canonical_json (record_json existing)) _ h₁ in
          let (_, _, last) = >>=-eq-ok (require (found == text) frozen) _ h₂ in
          subst (Grows before) (ok-inj before after last) (λ n f k. k)
    ]
