-- ===== src/AppServer/Sales/Steps.antt =====
-- app_server/service.py with both services: what each step of a confirmation leaves of the sale.
use krafton_week.Prelude.{
  ℕ, ◌+◌, String, ◌≡◌, refl, sym, subst, true, false, Option, none, some, List, arith, ℤ, eq_refl,
  not,
}
use krafton_week.Effects.{Result, ok, err, or_raise, ◌>>◌}
use krafton_week.Effects.Triples.{
  Triple, Ends, Whatever, Triple-bind, Triple-any, Triple-pure, Triple-before, Triple-weaken,
  Triple-raise_if,
}
use krafton_week.Dict.{lookup}
use krafton_week.Storage.Engine.{Store}
use krafton_week.Storage.Seats
use krafton_week.Storage.Seats.{SeatStatus, seat_key, confirmed_entry, seat_status_by_key}
use krafton_week.Storage.Seats.View.{confirmed, lookup-purge_if_expired, seat_status_by_key-Shows}
use krafton_week.Ticketing.Schema.{
  Database, ReservationRow, ReservationStatus, ConfirmReservationRequest, is_confirmed, is_held,
}
use krafton_week.Ticketing.Schema
use krafton_week.Ticketing.Repository
use krafton_week.Ticketing.Service
use krafton_week.Ticketing.Service.{World, ask}
use krafton_week.Ticketing.Workflows
use krafton_week.Ticketing.Payments.{IsSale, found_row, confirm_reservation_replies}
use krafton_week.Ticketing.Lifecycle.Rows.{its_id}
use krafton_week.Ticketing.Repeats.{freshened, get_reservation-settled}
use krafton_week.Ticketing.Repository.{SeatRow}
use krafton_week.Storage.Seats.Refinement.{force_confirm_seat-Acts}
use krafton_week.AppServer.Services.{
  Services, Setting, orchestrator, row_reply, db_reply, engine_reply,
}
use krafton_week.AppServer.Orchestrator.{
  TicketingOrchestratorService, App, call, trace, find_event_seat, get_event_seat,
}
use krafton_week.AppServer.Orchestrator.Steps.{MockPayment, build_mock_payment, is_confirmed_for}
use krafton_week.AppServer.Orchestrator.Reservations.{
  payment_request, check_held, pay_and_confirm, finish_confirmation, confirm_reservation,
  not_finalized,
}
use krafton_week.AppServer.Orchestrator.Calls.{Triple-call, Triple-trace, Triple-seat_of}
use krafton_week.AppServer.Orchestrator.Finalization.{finalize_confirmed_seat-Triple}
use krafton_week.Errors

confirmed-settled : (s : ReservationStatus) → is_confirmed s ≡ true → is_held s ≡ false
confirmed-settled Schema.held h = absurd cc
confirmed-settled Schema.confirmed h = refl
confirmed-settled Schema.cancelled h = refl
confirmed-settled Schema.expired h = refl

listed :
    (found : Option Schema.Event) (e : String) (w : World)
    → ((or_raise found Service.event_not_found >> ask (Repository.list_seats e)) w).1 ≡ w
listed none e w = refl
listed (some event) e w = refl

-- A list of an event's seats writes what `_expire_stale` writes.
list_event_seats-world :
    (clock : ℕ → String) (e : String) (w : World)
    → (Service.list_event_seats clock e w).1 ≡ freshened clock w
unfolding Service.list_event_seats Service.expire_stale Service.require_event
list_event_seats-world clock e w =
    listed (Repository.get_event e (freshened clock w).db) e (freshened clock w)

IsSale-freshened :
    (clock : ℕ → String) (i : String) (q : ConfirmReservationRequest)
    (reply : Option ReservationRow) (w : World)
    → IsSale w.db i q reply
    → IsSale (freshened clock w).db i q reply
IsSale-freshened clock i q reply w (row, is, stored, done, pays) = (
  row,
  is,
  get_reservation-settled i (clock w.reads) w.db row stored
      (confirmed-settled row.reservation.status done),
  done,
  pays,
)

-- Reading a status leaves a confirmed seat.
seat_status-confirmed :
    (now : ℤ) (e t u : String) (s : Store)
    → lookup (seat_key e t) s ≡ some (confirmed_entry u)
    → lookup (seat_key e t) (Seats.seat_status now e t s).1 ≡ some (confirmed_entry u)
seat_status-confirmed now e t u s h =
    let key = seat_key e t in
    ground (
      arith,
      seat_status_by_key-Shows now s key (confirmed u) h,
      lookup-purge_if_expired now key key s,
      eq_refl key,
    )

-- A sale is stored under the id of its row.
pub IsSale-own :
    (i : String) (db : Database) (q : ConfirmReservationRequest) (row : ReservationRow)
    → IsSale db i q (some row)
    → IsSale db row.reservation.reservation_id q (some row)
IsSale-own i db q row (row', is, stored, done, pays) =
    let id : i ≡ row.reservation.reservation_id =
      ground (arith, is, its_id i db row'.reservation (found_row i db row' stored)) in
    subst (λ (j : String). IsSale db j q (some row)) id (row', is, stored, done, pays)

module _ (g : Setting) (i e t u : String) where
  abbrev self : TicketingOrchestratorService Services
  self = orchestrator g

  -- The database has confirmed the reservation with the payment; the engine has confirmed the seat, too.
  abbrev Paid : MockPayment → ReservationRow → Services → Type 0
  Paid payment row s = IsSale s.world.db i (payment_request payment) (some row)

  abbrev pub Sold : MockPayment → ReservationRow → Services → Type 0
  Sold payment row s =
      Paid payment row s × (lookup (seat_key e t) s.store ≡ some (confirmed_entry u))

  passing :
      (source target action status : String) (e t u detail : Option String)
      → Triple
          (λ (w : App Services). Unit)
          (trace self source target action status e t u detail)
          (λ _ _. Unit)
          Whatever
  passing = Triple-trace self (λ _. Unit) Whatever

  Paid-reply :
      (payment : MockPayment) (x : Result Service.Error (Option ReservationRow) × World)
      (s : Services)
      → Workflows.confirm_reservation g.clock i (payment_request payment) s.world ≡ x
      → Ends (Paid payment) Whatever (row_reply g.detail x.0, record s { world = x.1 })
  Paid-reply payment (ok none, w) s h = tt
  Paid-reply payment (ok (some row), w) s h =
      confirm_reservation_replies g.clock i (payment_request payment) s.world w (some row) h
  Paid-reply payment (err x, w) s h = tt

  pay_and_confirm-Paid :
      (row : SeatRow)
      → Triple
          (λ _. Unit)
          (pay_and_confirm self row i e t u)
          (λ (reservation, payment) (w : App Services). Paid payment reservation w.services)
          Whatever
  unfolding pay_and_confirm
  pay_and_confirm-Paid row =
      Triple-bind _ _ (Triple-any (build_mock_payment self row.seat.price)) (λ payment.
        Triple-bind _ _ (passing _ _ _ _ _ _ _ _) (λ _.
          Triple-bind _ _ (passing _ _ _ _ _ _ _ _) (λ _.
            Triple-bind _ _
              (Triple-call (Paid payment) Whatever
                (self.db.confirm_reservation i (payment_request payment))
                (λ s _. Paid-reply payment _ s refl))
              (λ reservation.
                Triple-bind _ _
                  (Triple-trace self (Paid payment reservation) Whatever _ _ _ _ _ _ _ _)
                  (λ _. Triple-pure (reservation, payment) (λ w p. p))))))

  module _ (payment : MockPayment) (row : ReservationRow) where
    listed-Sold :
        (r : Result Service.Error (List SeatRow)) (s : Services) (w : World)
        → Sold payment row s
        → w ≡ freshened g.clock s.world
        → Ends (λ _. Sold payment row) Whatever (db_reply g.detail r, record s { world = w })
    listed-Sold (ok rows) s w h is = (
      subst (λ (w : World). IsSale w.db i (payment_request payment) (some row)) (sym is)
          (IsSale-freshened g.clock i (payment_request payment) (some row) s.world h.0),
      h.1,
    )
    listed-Sold (err x) s w h is = tt

    status-Sold :
        (r : Result Errors.Error SeatStatus) (s : Services) (store : Store)
        → Sold payment row s
        → lookup (seat_key e t) store ≡ some (confirmed_entry u)
        → Ends
            (λ _. Sold payment row)
            Whatever
            (
              engine_reply g.message (λ (status : SeatStatus). status) r,
              record s { store = store; ticks = s.ticks + 1 },
            )
    status-Sold (ok status) s store h is = (h.0, is)
    status-Sold (err x) s store h is = tt

    get_event_seat-Sold :
        Triple
          (λ (w : App Services). Sold payment row w.services)
          (get_event_seat self e t)
          (λ _ w. Sold payment row w.services)
          Whatever
    unfolding get_event_seat find_event_seat
    get_event_seat-Sold =
        Triple-bind _ _
          (Triple-bind _ _
            (Triple-call (λ _. Sold payment row) Whatever (self.db.list_event_seats e)
              (λ s h. listed-Sold _ s _ h (list_event_seats-world g.clock e s.world)))
            (λ rows.
              Triple-weaken (Triple-seat_of (Sold payment row) e t rows) (λ _ w p. p)
                (λ _ w p. tt)))
          (λ seat.
            Triple-bind _ _
              (Triple-call (λ _. Sold payment row) Whatever (self.redis.seat_status e t)
                (λ s h.
                  status-Sold _ s _ h (seat_status-confirmed (g.now s.ticks) e t u s.store h.1)))
              (λ status. Triple-pure _ (λ w p. p)))

    finish_confirmation-Sold :
        Triple
          (λ (w : App Services). Paid payment row w.services)
          (finish_confirmation self (row, payment) e t u)
          (λ reply w. Sold reply.payment reply.reservation w.services)
          Whatever
    unfolding finish_confirmation
    finish_confirmation-Sold =
        Triple-bind _ _
          (finalize_confirmed_seat-Triple self e t u (λ _. Paid payment row) (Sold payment row)
            (λ _. Unit) (λ n s p. tt)
            (λ n s p. (p, λ _. (p, (force_confirm_seat-Acts (g.now s.ticks) e t u s.store).1))))
          (λ r.
            Triple-bind _ _
              (Triple-raise_if (not (is_confirmed_for r u)) not_finalized (λ w is p. tt))
              (λ _.
                Triple-bind _ _ (Triple-before get_event_seat-Sold (λ w p. p.1.1))
                  (λ view. Triple-pure _ (λ w p. p))))

  pub confirm_reservation-Sold :
      Triple
        (λ _. Unit)
        (confirm_reservation self i e t u)
        (λ reply (w : App Services). Sold reply.payment reply.reservation w.services)
        Whatever
  unfolding confirm_reservation
  confirm_reservation-Sold = Triple-bind _ _ (Triple-any (find_event_seat self e t)) (λ row.
      Triple-bind _ _ (passing _ _ _ _ _ _ _ _) (λ _.
        Triple-bind _ _ (Triple-any (call (self.redis.seat_status e t))) (λ status.
          Triple-bind _ _ (passing _ _ _ _ _ _ _ _) (λ _.
            Triple-bind _ _ (Triple-any (check_held self status i u)) (λ _.
              Triple-bind _ _ (pay_and_confirm-Paid row)
                (λ (reservation, payment). finish_confirmation-Sold payment reservation))))))
