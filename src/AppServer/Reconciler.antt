-- ===== src/AppServer/Reconciler.antt =====
-- app_server/reconciler.py. The two services are parameters: `S` is the state of both, and `E` what
-- their calls may raise. A row's fields are texts here, so `_require_str` does not raise.
use krafton_week.Prelude.{ℕ, String, Bool, Option, none, some, List, [], ◌∷◌, ◌++◌, if◌then◌else◌}
use krafton_week.Effects.{Result, ok, err, Exec, pure, ◌>>=◌}
use krafton_week.Storage.Seats.{SeatStatus, seat_held, seat_confirmed, is_seat_of}

-- What the reconciler reads of a reservation.
pub record ReservationRef : Type 0 where
  pub reservation_id : String
  pub event_id : String
  pub seat_id : String
  pub user_id : String

-- The messages of a report, with the exception where there is one.
pub data Problem (E : Type 0) : Type 0 where
  release_failed : String → E → Problem E
  unexpected_state : String → Problem E
  repair_failed : String → E → Problem E

pub record ReconciliationReport (E : Type 0) : Type 0 where
  pub expired_reservation_ids : List String
  pub repaired_reservation_ids : List String
  pub errors : List (Problem E)

pub record RedisReconcilerProtocol (E S : Type 0) : Type 0 where
  pub seat_status : String → String → Exec E S SeatStatus
  pub release_seat : String → String → String → Exec E S (Bool × SeatStatus)
  pub force_confirm_seat : String → String → String → Exec E S (Bool × SeatStatus)

pub record DbReconcilerProtocol (E S : Type 0) : Type 0 where
  pub expire_stale_reservations : ℕ → Exec E S (List ReservationRef)
  pub list_confirmed_reservations : Option ℕ → Exec E S (List ReservationRef)

module _ {E S : Type 0} (redis : RedisReconcilerProtocol E S) where
  abbrev Report : Type 0
  Report = ReconciliationReport E

  abbrev add_error : Problem E → Report → Report
  add_error problem report = record report { errors = report.errors ++ problem ∷ [] }

  -- The `try` of the first loop: the exception of either call is reported.
  abbrev release_hold : ReservationRef → Exec E S SeatStatus
  release_hold r = do
    status ← redis.seat_status r.event_id r.seat_id
    if is_seat_of status seat_held r.user_id
        then (do released ← redis.release_seat r.event_id r.seat_id r.user_id; pure status)
        else pure status

  abbrev released_report : ReservationRef → Result E SeatStatus → Report → Report
  released_report r (ok status) report = report
  released_report r (err e) report = add_error (release_failed r.reservation_id e) report

  unfoldable expire_stale_hold : ReservationRef → Report × S → Report × S
  expire_stale_hold r (report, s) =
      let (result, s') = release_hold r s in
      (
        released_report r result (record report {
          expired_reservation_ids = report.expired_reservation_ids ++ r.reservation_id ∷ [];
        }),
        s',
      )

  -- The second loop: nothing is to be done, or the status after the repair.
  abbrev confirm_again_if : ReservationRef → Exec E S (Option SeatStatus)
  confirm_again_if r = do
    status ← redis.seat_status r.event_id r.seat_id
    if is_seat_of status seat_confirmed r.user_id then pure none else (do
      (success, status') ← redis.force_confirm_seat r.event_id r.seat_id r.user_id
      pure (some status'))

  abbrev repaired_report : ReservationRef → Result E (Option SeatStatus) → Report → Report
  repaired_report r (err e) report = add_error (repair_failed r.reservation_id e) report
  repaired_report r (ok none) report = report
  repaired_report r (ok (some status)) report =
      if is_seat_of status seat_confirmed r.user_id
      then record report {
        repaired_reservation_ids = report.repaired_reservation_ids ++ r.reservation_id ∷ [];
      }
      else add_error (unexpected_state r.reservation_id) report

  unfoldable repair_confirmed_seat : ReservationRef → Report × S → Report × S
  repair_confirmed_seat r (report, s) =
      let (result, s') = confirm_again_if r s in (repaired_report r result report, s')

  unfoldable for_each :
      (ReservationRef → Report × S → Report × S) → List ReservationRef → Report × S → Report × S
  for_each f [] state = state
  for_each f (r ∷ rs) state = for_each f rs (f r state)

  module _ (db : DbReconcilerProtocol E S) where
    unfoldable expire_stale_holds : ℕ → Report → Exec E S Report
    expire_stale_holds limit report = do
      expired ← db.expire_stale_reservations limit
      λ s. let (report', s') = for_each expire_stale_hold expired (report, s) in (ok report', s')

    unfoldable repair_confirmed_seats : ℕ → Report → Exec E S Report
    repair_confirmed_seats limit report = do
      confirmed ← db.list_confirmed_reservations (some limit)
      λ s.
          let (report', s') = for_each repair_confirmed_seat confirmed (report, s) in
          (ok report', s')

    unfoldable run_once : ℕ → Exec E S Report
    run_once limit = do
      report ←
          expire_stale_holds limit
            (record { expired_reservation_ids = []; repaired_reservation_ids = []; errors = [] })
      repair_confirmed_seats limit report
