-- ===== src/Exposure/Reserve/Laws.antt =====
-- What a reservation leaves in the ledger, whether it returns or throws (src/exposure/ledger.ts).
use domain_eval_weave.Base.{
  ◌≡◌, refl, sym, ap, subst, String, some, List, [], ◌∷◌, All, ◌⊎◌, inl, inr, true, arith,
  Option-cases,
}
use domain_eval_weave.Base.Result.{Failure, Result, ok, err, >>=-eq-ok, ok-inj}
use domain_eval_weave.Exposure.Records.{
  HoldoutIdentity, Entry, Directory, file_at, reservation_paths,
}
use domain_eval_weave.Exposure.Documents.{LedgerHost}
use domain_eval_weave.Exposure.Records.Laws.{Grows, Grows-cons, file_at-cons}
use domain_eval_weave.Exposure.Reserve.{
  Ledger, same_reservation, link_reservation, link_all, begin_reservation, reserve_holdout,
}

pub Result-cases {ℓ} :
    {A : Type ℓ} (r : Result A) → ((f : Failure) × (r ≡ err f)) ⊎ ((a : A) × (r ≡ ok a))
Result-cases (err f) = inl (f, refl)
Result-cases (ok a) = inr (a, refl)

module _ (host : LedgerHost) (i : HoldoutIdentity) (text : String) where
  -- A path holds the reservation: its bytes, or a file that reads back as the same reservation.
  pub record Holds (directory : Directory) (name : String) : Type 0 where
    pub file : String × Entry
    pub found : file_at directory name ≡ some file
    pub same : (file.1.text ≡ text) ⊎ (same_reservation host i text file.1 ≡ ok tt)

  Holds-Grows :
      (before after : Directory) (name : String)
      → Grows before after
      → Holds before name
      → Holds after name
  Holds-Grows before after name grows h = record {
    file = h.file;
    found = grows name h.file h.found;
    same = h.same;
  }

  pub link_reservation-Grows :
      (name : String) (before after : Directory)
      → link_reservation host i text name before ≡ ok after
      → Grows before after × Holds after name
  unfolding link_reservation
  link_reservation-Grows name before after h = elim (Option-cases (file_at before name)) [
    | inl e ↦
        let entry : Entry = record { physical = true; text = text } in
        let same = ok-inj ((name, entry) ∷ before) after (rw (link_reservation, e) at h) in
        subst (λ d. Grows before d × Holds d name) same
          (
            Grows-cons (name, entry) before,
            record {
              file = (name, entry);
              found = file_at-cons name entry before e;
              same = inl refl;
            },
          )
    | inr (file, e) ↦
        let (_, checked, done) =
          >>=-eq-ok (same_reservation host i text file.1) _ (rw (link_reservation, e) at h) in
        let same = ok-inj before after done in
        subst (λ d. Grows before d × Holds d name) same
          ((λ n f k. k), record { file = file; found = e; same = inr checked })
  ]

  -- However the loop ends, every file that was there is kept.
  pub link_all-Grows :
      (names : List String) (before : Directory)
      → Grows before (link_all host i text names before).0
  unfolding link_all
  link_all-Grows [] before n f k = k
  link_all-Grows (name ∷ names) before n f k =
      elim (Result-cases (link_reservation host i text name before)) [
        | inl (failure, e) ↦ rw (link_all, e) k
        | inr (linked, e) ↦
            let (grows, _) = link_reservation-Grows name before linked e in
            rw (link_all, e) (link_all-Grows names linked n f (grows n f k))
      ]

  link_all-Holds :
      (names : List String) (before : Directory)
      → (link_all host i text names before).1 ≡ ok tt
      → All (Holds (link_all host i text names before).0) names
  unfolding link_all
  link_all-Holds [] before h = tt
  link_all-Holds (name ∷ names) before h =
      elim (Result-cases (link_reservation host i text name before)) [
        | inl (failure, e) ↦ absurd (ground arith)
        | inr (linked, e) ↦
            let (_, holds) = link_reservation-Grows name before linked e in
            let later = link_all-Holds names linked (rw (link_all, e) at h) in
            let next : link_all host i text (name ∷ names) before
                ≡ link_all host i text names linked =
              rw (link_all, e) refl in
            subst (λ (end : Directory × Result (Unit {0})). All (Holds end.0) (name ∷ names))
              (sym next)
              (
                Holds-Grows linked (link_all host i text names linked).0 name
                    (link_all-Grows names linked) holds,
                later,
              )
      ]

-- Whether it returns or throws, a reservation keeps the exposures and every reservation file that
-- was there.
pub reserve_holdout-Grows :
    (host : LedgerHost) (i : HoldoutIdentity) (suite_id : String) (ledger : Ledger)
    → ((reserve_holdout host i suite_id ledger).0.exposures ≡ ledger.exposures)
      × Grows ledger.reservations (reserve_holdout host i suite_id ledger).0.reservations
unfolding reserve_holdout
reserve_holdout-Grows host i suite_id ledger =
    elim (Result-cases (begin_reservation host ledger i suite_id)) [
      | inl (failure, e) ↦ rw (reserve_holdout, e) (refl, (λ n f k. k))
      | inr (text, e) ↦
          rw (reserve_holdout, e)
            (refl, link_all-Grows host i text (reservation_paths i) ledger.reservations)
    ]

-- A reservation that returns has passed its checks, and each of its three paths holds it: the bytes
-- that it links, or a file that reads back as the same reservation.
pub reserve_holdout-Holds :
    (host : LedgerHost) (i : HoldoutIdentity) (suite_id : String) (ledger after : Ledger)
    → reserve_holdout host i suite_id ledger ≡ (after, ok tt)
    → (text : String) × (begin_reservation host ledger i suite_id ≡ ok text)
      × All (Holds host i text after.reservations) (reservation_paths i)
unfolding reserve_holdout
reserve_holdout-Holds host i suite_id ledger after h =
    elim (Result-cases (begin_reservation host ledger i suite_id)) [
      | inl (failure, e) ↦
          let thrown : ◌≡◌ {A = Ledger × Result (Unit {0})} (ledger, err failure) (after, ok tt) =
            rw (reserve_holdout, e) at h in
          let clash : ◌≡◌ {A = Result (Unit {0})} (err failure) (ok tt) = ap (λ x. x.1) thrown in cc
      | inr (text, e) ↦
          let end = link_all host i text (reservation_paths i) ledger.reservations in
          let made : (record ledger { reservations = end.0 }, end.1) ≡ (after, ok tt) =
            rw (reserve_holdout, e) at h in
          let holds =
            link_all-Holds host i text (reservation_paths i) ledger.reservations
              (ap (λ x. x.1) made) in
          (
            text,
            e,
            subst (λ (l : Ledger). All (Holds host i text l.reservations) (reservation_paths i))
                (ap (λ x. x.0) made) holds,
          )
    ]
