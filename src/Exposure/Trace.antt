-- ===== src/Exposure/Trace.antt =====
-- Calls of `write` and `reserveHoldout` that run at once (src/exposure/ledger.ts). Each link is one
-- step, and so are the checks before the links; a call is kept in the world from its checks on.
pub mod Laws
use domain_eval_weave.Base.{◌≡◌, String, List, [], ◌∷◌, Any}
use domain_eval_weave.Base.Result.{ok}
use domain_eval_weave.Exposure.Records.{HoldoutIdentity, Directory, reservation_paths}
use domain_eval_weave.Exposure.Documents.{LedgerHost, ExposureRecord}
use domain_eval_weave.Exposure.Reserve.{Ledger, link_reservation, begin_reservation}
use domain_eval_weave.Exposure.Write.{prepare_write, publish}

-- A `write` that has passed its checks, with the bytes to link.
pub record Writing : Type 0 where
  pub exposure : ExposureRecord
  pub text : String

-- A `reserveHoldout` that has passed its checks, with the paths that are left to link.
pub record Reserving : Type 0 where
  pub identity : HoldoutIdentity
  pub text : String
  pub pending : List String

pub record World : Type 0 where
  pub ledger : Ledger
  pub writing : List Writing
  pub reserving : List Reserving

abbrev pub start_world : Ledger → World
start_world ledger = record { ledger = ledger; writing = []; reserving = [] }

pub data Step (host : LedgerHost) (w : World) : World → Type 0 where
  -- The checks of `reserveHoldout`.
  begin :
      (i : HoldoutIdentity) (suite_id text : String)
      → begin_reservation host w.ledger i suite_id ≡ ok text
      → Step host w (record w {
        reserving =
            record { identity = i; text = text; pending = reservation_paths i } ∷ w.reserving;
      })
  -- One round of its loop.
  link :
      (r : Reserving) (name : String) (rest : List String) (linked : Directory)
      → Any (λ q. q ≡ r) w.reserving
      → r.pending ≡ name ∷ rest
      → link_reservation host r.identity r.text name w.ledger.reservations ≡ ok linked
      → Step host w (record w {
        ledger = record { exposures = w.ledger.exposures; reservations = linked };
        reserving = record r { pending = rest } ∷ w.reserving;
      })
  -- The checks of `write`.
  check :
      (r : ExposureRecord) (text : String)
      → prepare_write host w.ledger.reservations r ≡ ok text
      → Step host w (record w { writing = record { exposure = r; text = text } ∷ w.writing })
  -- Its link.
  freeze :
      (p : Writing) (linked : Directory)
      → Any (λ q. q ≡ p) w.writing
      → publish host p.exposure p.text w.ledger.exposures ≡ ok linked
      → Step host w (record w {
        ledger = record { exposures = linked; reservations = w.ledger.reservations };
      })

pub data Steps (host : LedgerHost) (w : World) : World → Type 0 where
  stay : Steps host w w
  followed_by : {u v : World} → Steps host w u → Step host u v → Steps host w v
