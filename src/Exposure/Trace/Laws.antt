-- ===== src/Exposure/Trace/Laws.antt =====
-- Holdout exposures keep their owner, whatever calls run at once (src/exposure/ledger.ts).
use domain_eval_weave.Base.{◌≡◌, String, List, [], ◌∷◌, All, All-map, Any, inl, inr, subst, ◌==◌}
use domain_eval_weave.Base.Result.{ok, require, ◌>>◌, >>=-eq-ok}
use domain_eval_weave.Exposure.Records.{Directory, phase2_exposure_id}
use domain_eval_weave.Exposure.Documents.{LedgerHost, ExposureRecord, holdout}
use domain_eval_weave.Exposure.Records.Laws.{Grows}
use domain_eval_weave.Exposure.Reserve.{Ledger}
use domain_eval_weave.Exposure.Reserve.Laws.{link_reservation-Grows}
use domain_eval_weave.Exposure.Write.{assert_holdout_reservation, mismatched_id, prepare_write}
use domain_eval_weave.Exposure.Write.Laws.{
  Shares, SameOwner, assert_holdout_reservation-SameOwner, assert_holdout_reservation-Grows,
  publish-Grows,
}
use domain_eval_weave.Exposure.Trace.{
  Writing, World, start_world, Step, begin, link, check, freeze, Steps, stay, followed_by,
}

Step-Grows :
    (host : LedgerHost) (w v : World)
    → Step host w v
    → Grows w.ledger.exposures v.ledger.exposures
      × Grows w.ledger.reservations v.ledger.reservations
Step-Grows host w v (begin i suite_id text h) = ((λ n f k. k), (λ n f k. k))
Step-Grows host w v (link r name rest linked here left h) = (
  (λ n f k. k),
  (link_reservation-Grows host r.identity r.text name w.ledger.reservations linked h).0,
)
Step-Grows host w v (check r text h) = ((λ n f k. k), (λ n f k. k))
Step-Grows host w v (freeze p linked here h) =
    (publish-Grows host p.exposure p.text w.ledger.exposures linked h, (λ n f k. k))

-- Whatever calls run at once, no file of the ledger that is there changes.
pub Steps-Grows :
    (host : LedgerHost) (w v : World)
    → Steps host w v
    → Grows w.ledger.exposures v.ledger.exposures
      × Grows w.ledger.reservations v.ledger.reservations
Steps-Grows host w v stay = ((λ n f k. k), (λ n f k. k))
Steps-Grows host w v (followed_by {u} path s) =
    let before = Steps-Grows host w u path in
    let last = Step-Grows host u v s in
    ((λ n f k. last.0 n f (before.0 n f k)), (λ n f k. last.1 n f (before.1 n f k)))

prepare_write-assert :
    (host : LedgerHost) (reservations : Directory) (r : ExposureRecord) (text : String)
    → prepare_write host reservations r ≡ ok text
    → assert_holdout_reservation host reservations r ≡ ok tt
unfolding prepare_write
prepare_write-assert host reservations r text h =
    let (id, _, h₁) = >>=-eq-ok (phase2_exposure_id r.suite_id r.task_id r.arm) _ h in
    let named = require (r.exposure_id == id) mismatched_id in
    let (_, passed, _) = >>=-eq-ok (named >> assert_holdout_reservation host reservations r) _ h₁ in
    let (_, _, reserved) = >>=-eq-ok named _ passed in reserved

-- Every write that was let through is let through by the reservations of now.
abbrev IsOwned : LedgerHost → World → Type 0
IsOwned host w =
    All (λ p. assert_holdout_reservation host w.ledger.reservations p.exposure ≡ ok tt) w.writing

Step-IsOwned : (host : LedgerHost) (w v : World) → Step host w v → IsOwned host w → IsOwned host v
Step-IsOwned host w v (begin i suite_id text h) owned = owned
Step-IsOwned host w v (link r name rest linked here left h) owned =
    let grows =
      (link_reservation-Grows host r.identity r.text name w.ledger.reservations linked h).0 in
    All-map w.writing
      (λ p. assert_holdout_reservation-Grows host w.ledger.reservations linked grows p.exposure)
      owned
Step-IsOwned host w v (check r text h) owned =
    (prepare_write-assert host w.ledger.reservations r text h, owned)
Step-IsOwned host w v (freeze p linked here h) owned = owned

Steps-IsOwned :
    (host : LedgerHost) (ledger : Ledger) (v : World)
    → Steps host (start_world ledger) v
    → IsOwned host v
Steps-IsOwned host ledger v stay = tt
Steps-IsOwned host ledger v (followed_by {u} path s) =
    Step-IsOwned host u v s (Steps-IsOwned host ledger u path)

All-at :
    (P : Writing → Type 0) (p : Writing) (ps : List Writing) → All P ps → Any (λ q. q ≡ p) ps → P p
All-at P p [] h m = absurd m
All-at P p (q ∷ ps) h (inl e) = subst P e h.0
All-at P p (q ∷ ps) h (inr m) = All-at P p ps h.1 m

-- Whatever calls run at once from a ledger with none under way, two writes of holdout exposures that
-- are let through and share a Task id or a frozen digest have the same Suite and the same frozen
-- evidence, and no file that is in the ledger at the start has changed.
pub Steps-SameOwner :
    (host : LedgerHost) (ledger : Ledger) (w : World) (p q : Writing)
    → Steps host (start_world ledger) w
    → Any (λ x. x ≡ p) w.writing
    → Any (λ x. x ≡ q) w.writing
    → p.exposure.bucket ≡ holdout
    → q.exposure.bucket ≡ holdout
    → Shares p.exposure q.exposure
    → SameOwner p.exposure q.exposure
      × Grows ledger.exposures w.ledger.exposures
      × Grows ledger.reservations w.ledger.reservations
Steps-SameOwner host ledger w p q path p_in q_in p_holdout q_holdout shared =
    let owned = Steps-IsOwned host ledger w path in
    let grows = Steps-Grows host (start_world ledger) w path in
    (
      assert_holdout_reservation-SameOwner host w.ledger.reservations p.exposure q.exposure
          p_holdout q_holdout (All-at _ p w.writing owned p_in) (All-at _ q w.writing owned q_in)
          shared,
      grows.0,
      grows.1,
    )
