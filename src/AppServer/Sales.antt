-- ===== src/AppServer/Sales.antt =====
-- app_server/service.py with both services: a confirmation that returns has sold the seat in the
-- engine and in the database.
mod Steps
use krafton_week.Prelude.{
  ℕ, ◌+◌, String, ◌≡◌, refl, sym, subst, ◌∙◌, ap, Bool, true, false, Option, none, some, List,
  arith, ℤ, eq_refl, not, opt_eq, ◌==◌,
}
use krafton_week.Effects.{Result, ok, err, or_raise, ◌>>=◌, ◌>>◌}
use krafton_week.Effects.Triples.{
  Triple, Ends, Whatever, returned, Triple-bind, Triple-any, Triple-pure, Triple-raise,
  Triple-on_exception, Triple-before, Triple-weaken, Triple-raise_if,
}
use krafton_week.Dict.{lookup, lookup-insert}
use krafton_week.Storage.Engine.{Store, purge_if_expired}
use krafton_week.Storage.Seats
use krafton_week.Storage.Seats.{SeatStatus, seat_key, confirmed_entry, seat_status_by_key}
use krafton_week.Storage.Seats.View.{
  Shows, confirmed, told, lookup-purge_if_expired, seat_status_by_key-Shows,
}
use krafton_week.Ticketing.Schema.{
  Database, ReservationRow, ReservationStatus, ConfirmReservationRequest, is_confirmed, is_held,
}
use krafton_week.Ticketing.Schema
use krafton_week.Ticketing.Repository
use krafton_week.Ticketing.Service
use krafton_week.Ticketing.Service.{World, ask}
use krafton_week.Ticketing.Workflows
use krafton_week.Ticketing.Payments.{IsSale, found_row, confirm_reservation_replies}
use krafton_week.Ticketing.Lifecycle.Rows.{its_id}
use krafton_week.Ticketing.Repeats.{freshened, get_reservation-settled}
use krafton_week.Ticketing.Repository.{SeatRow}
use krafton_week.Storage.Seats.Refinement.{force_confirm_seat-Acts}
use krafton_week.AppServer.Clients.{AppServerError}
use krafton_week.AppServer.Services.{
  Services, Setting, orchestrator, row_reply, db_reply, engine_reply,
}
use krafton_week.AppServer.Orchestrator.{
  TicketingOrchestratorService, App, call, trace, find_event_seat, get_event_seat,
}
use krafton_week.AppServer.Orchestrator.Steps.{
  MockPayment, build_mock_payment, safe_cancel, is_confirmed_for,
}
use krafton_week.AppServer.Orchestrator.Reservations.{
  payment_request, check_held, pay_and_confirm, finish_confirmation, confirm_reservation,
  not_finalized, ConfirmReply, PurchaseReply, hold_reservation, purchase_seat, undo_purchase,
}
use krafton_week.AppServer.Orchestrator.Calls.{Triple-call, Triple-trace, Triple-seat_of}
use krafton_week.AppServer.Orchestrator.Finalization.{finalize_confirmed_seat-Triple}
use krafton_week.Errors
use krafton_week.AppServer.Sales.Steps.{IsSale-own, Sold, confirm_reservation-Sold}

-- Where the orchestrator's confirmation of a reservation returns, over both services: the engine has
-- the seat confirmed for the user, and the reply's reservation is the one that the database has
-- stored, which is confirmed and has the payment of the reply, succeeded.
pub confirm_reservation_sells :
    (g : Setting) (i e t u : String) (w w' : App Services) (reply : ConfirmReply)
    → confirm_reservation (orchestrator g) i e t u w ≡ (ok reply, w')
    → (lookup (seat_key e t) w'.services.store ≡ some (confirmed_entry u))
      × IsSale w'.services.world.db i (payment_request reply.payment) (some reply.reservation)
confirm_reservation_sells g i e t u w w' reply h =
    let sold =
      returned
        (λ reply (w : App Services). Sold g i e t u reply.payment reply.reservation w.services)
        Whatever (confirm_reservation (orchestrator g) i e t u w) reply w' h
        ((confirm_reservation-Sold g i e t u).at w tt) in
    (sold.1, sold.0)

module _ (g : Setting) (e t u : String) where
  abbrev Bought : PurchaseReply → App Services → Type 0
  Bought reply w =
      (i : String) × Sold g i e t u reply.confirmed.payment reply.confirmed.reservation w.services

  purchase_seat-Sold :
      (secs : ℤ) → Triple (λ _. Unit) (purchase_seat (orchestrator g) e t u secs) Bought Whatever
  unfolding purchase_seat
  purchase_seat-Sold secs =
      Triple-bind _ _ (Triple-any (hold_reservation (orchestrator g) e t u secs))
        (λ (hold, created).
          let i = hold.reservation.reservation.reservation_id in
          Triple-bind _ _
            (Triple-on_exception (confirm_reservation (orchestrator g) i e t u)
              (undo_purchase (orchestrator g) i e t u) (confirm_reservation-Sold g i e t u)
              (λ x.
                Triple-bind _ _ (Triple-any (safe_cancel (orchestrator g) i e t u))
                  (λ _. Triple-raise x (λ w p. tt))))
            (λ confirmed.
              Triple-pure (record { confirmed = confirmed; created = created }) (λ w p. (i, p))))

  -- Where a purchase returns, over both services: the engine has the seat confirmed for the user, and
  -- the reply's reservation is the one that the database has stored under its id, which is confirmed
  -- and has the payment of the reply, succeeded.
  pub purchase_seat_sells :
      (secs : ℤ) (w w' : App Services) (reply : PurchaseReply)
      → purchase_seat (orchestrator g) e t u secs w ≡ (ok reply, w')
      → let bought = reply.confirmed in
        (lookup (seat_key e t) w'.services.store ≡ some (confirmed_entry u))
        × IsSale w'.services.world.db bought.reservation.reservation.reservation_id
            (payment_request bought.payment)
            (some bought.reservation)
  purchase_seat_sells secs w w' reply h =
      let (i, sold) =
        returned Bought Whatever (purchase_seat (orchestrator g) e t u secs w) reply w' h
          ((purchase_seat-Sold secs).at w tt) in
      (sold.1, IsSale-own i _ _ _ sold.0)
