-- ===== src/AppServer/Orchestrator/Reservations.antt =====
-- app_server/service.py: the requests on a reservation, each with the calls of both services in the
-- order of the source.
use Prim.Native.String.{◌++◌}
use krafton_week.Prelude.{String, Bool, true, false, not, none, some, ◌==◌, opt_eq, ℤ}
use krafton_week.Effects.{ok, pure, raise, raise_if, on_exception, ◌>>=◌, ◌>>◌}
use krafton_week.Text.{print_int}
use krafton_week.Storage.Seats.{SeatStatus, seat_held}
use krafton_week.Ticketing.Schema.{HeldReservationCreate, ConfirmReservationRequest, ReservationRow}
use krafton_week.Ticketing.Repository.{SeatRow}
use krafton_week.AppServer.Clients.{AppServerError, conflict, upstream, SeatCommandResult}
use krafton_week.AppServer.Orchestrator.{
  TicketingOrchestratorService, Action, SeatView, call, draw, seat_conflict_message,
  find_event_seat, get_event_seat,
}
use krafton_week.AppServer.Orchestrator.Steps.{
  MockPayment, build_mock_payment, seat_trace, safe_release, safe_expire, safe_cancel,
  finalize_confirmed_seat, is_confirmed_for, no_payment,
}

pub record HoldReply : Type 0 where
  pub reservation : ReservationRow
  pub seat : SeatView
  pub created : Bool

pub record ConfirmReply : Type 0 where
  pub reservation : ReservationRow
  pub seat : SeatView
  pub payment : MockPayment

pub record CancelReply : Type 0 where
  pub reservation : ReservationRow
  pub seat : SeatView

pub record PurchaseReply : Type 0 where
  pub confirmed : ConfirmReply
  pub created : Bool

abbrev pub payment_request : MockPayment → ConfirmReservationRequest
payment_request payment = record {
  payment_id = payment.payment_id;
  amount = payment.amount;
  provider = payment.provider;
  provider_ref = payment.provider_ref;
}

abbrev pub payload_of : String → String → String → String → String → String → HeldReservationCreate
payload_of event_id seat_id user_id reservation token expires_at = record {
  reservation_id = "res-" ++ reservation;
  event_id = event_id;
  seat_id = seat_id;
  user_id = user_id;
  hold_token = "hold-" ++ token;
  expires_at = expires_at;
}

abbrev pub held_by_another : AppServerError
held_by_another = conflict "seat is held by another user"

abbrev pub wrong_state : SeatStatus → AppServerError
wrong_state status = conflict ("seat cannot be confirmed from state " ++ status.state)

abbrev pub not_finalized : AppServerError
not_finalized = upstream "DB confirmed the reservation but Redis could not finalize the seat"

module _ {S : Type 0} (self : TicketingOrchestratorService S) where
  abbrev pub held_payload : String → String → String → ℤ → Action S HeldReservationCreate
  held_payload event_id seat_id user_id hold_seconds = do
    reservation ← draw (λ n. ok (self.uuid_hex n))
    token ← draw (λ n. ok (self.uuid_hex n))
    expires_at ← draw (λ n. self.seconds_ahead n hold_seconds)
    pure (payload_of event_id seat_id user_id reservation token expires_at)

  abbrev try_create : HeldReservationCreate → Action S (ReservationRow × Bool)
  try_create payload = do
    seat_trace self "DB" "CREATE_HELD" "START" payload.event_id payload.seat_id payload.user_id
        (some payload.reservation_id)
    call (self.db.create_held_reservation payload)

  abbrev pub give_back : HeldReservationCreate → AppServerError → Action S (ReservationRow × Bool)
  give_back payload e = do
    seat_trace self "DB" "CREATE_HELD" "FAIL" payload.event_id payload.seat_id payload.user_id
        (some payload.reservation_id)
    safe_release self payload.event_id payload.seat_id payload.user_id
    raise e

  -- The reservation of a seat that has been held: where it is refused, the seat is given back.
  unfoldable pub create_or_release : HeldReservationCreate → Action S (ReservationRow × Bool)
  create_or_release payload = on_exception (try_create payload) (give_back payload)

  abbrev pub hold_reserved :
      Bool → SeatCommandResult → String → String → String → ℤ → Action S (HoldReply × Bool)
  hold_reserved false result event_id seat_id user_id hold_seconds = do
    seat_trace self "REDIS" "RESERVE_SEAT" "FAIL" event_id seat_id user_id
        (some (seat_conflict_message result user_id))
    raise (conflict (seat_conflict_message result user_id))
  hold_reserved true result event_id seat_id user_id hold_seconds = do
    seat_trace self "REDIS" "RESERVE_SEAT" "SUCCESS" event_id seat_id user_id
        (some ("ttl=" ++ print_int result.ttl))
    payload ← held_payload event_id seat_id user_id hold_seconds
    (reservation, created) ← create_or_release payload
    seat_trace self "DB" "CREATE_HELD" "SUCCESS" event_id seat_id user_id
        (some reservation.reservation.reservation_id)
    view ← get_event_seat self event_id seat_id
    pure (record { reservation = reservation; seat = view; created = created }, created)

  unfoldable pub hold_reservation : String → String → String → ℤ → Action S (HoldReply × Bool)
  hold_reservation event_id seat_id user_id hold_seconds = do
    found ← find_event_seat self event_id seat_id
    seat_trace self "REDIS" "RESERVE_SEAT" "START" event_id seat_id user_id none
    result ← call (self.redis.reserve_seat event_id seat_id user_id hold_seconds)
    hold_reserved result.success result event_id seat_id user_id hold_seconds

  -- The guards of a confirmation, on the status that the engine tells.
  abbrev pub refuse_expired : Bool → String → Action S (Unit {0})
  refuse_expired false reservation_id = pure tt
  refuse_expired true reservation_id = do
    safe_expire self reservation_id
    raise (conflict "seat hold has already expired")

  unfoldable pub check_held : SeatStatus → String → String → Action S (Unit {0})
  check_held status reservation_id user_id = do
    refuse_expired (status.state == "AVAILABLE") reservation_id
    raise_if (not (opt_eq status.user_id (some user_id))) held_by_another
    raise_if (not (status.state == seat_held)) (wrong_state status)

  -- What follows once the seat is known to be held by the user.
  unfoldable pub pay_and_confirm :
      SeatRow → String → String → String → String → Action S (ReservationRow × MockPayment)
  pay_and_confirm row reservation_id event_id seat_id user_id = do
    payment ← build_mock_payment self row.seat.price
    seat_trace self "PAYMENT" "MOCK_APPROVE" "SUCCESS" event_id seat_id user_id
        (some payment.payment_id)
    seat_trace self "DB" "CONFIRM_RESERVATION" "START" event_id seat_id user_id
        (some reservation_id)
    reservation ← call (self.db.confirm_reservation reservation_id (payment_request payment))
    seat_trace self "DB" "CONFIRM_RESERVATION" "SUCCESS" event_id seat_id user_id
        (some reservation_id)
    pure (reservation, payment)

  unfoldable pub finish_confirmation :
      ReservationRow × MockPayment → String → String → String → Action S ConfirmReply
  finish_confirmation (reservation, payment) event_id seat_id user_id = do
    result ← finalize_confirmed_seat self event_id seat_id user_id
    raise_if (not (is_confirmed_for result user_id)) not_finalized
    view ← get_event_seat self event_id seat_id
    pure (record { reservation = reservation; seat = view; payment = payment })

  unfoldable pub confirm_reservation : String → String → String → String → Action S ConfirmReply
  confirm_reservation reservation_id event_id seat_id user_id = do
    row ← find_event_seat self event_id seat_id
    seat_trace self "REDIS" "SEAT_STATUS" "START" event_id seat_id user_id none
    status ← call (self.redis.seat_status event_id seat_id)
    seat_trace self "REDIS" "SEAT_STATUS" "SUCCESS" event_id seat_id user_id
        (some ("state=" ++ status.state))
    check_held status reservation_id user_id
    paid ← pay_and_confirm row reservation_id event_id seat_id user_id
    finish_confirmation paid event_id seat_id user_id

  unfoldable pub cancel_reservation : String → String → String → String → Action S CancelReply
  cancel_reservation reservation_id event_id seat_id user_id = do
    seat_trace self "DB" "CANCEL_RESERVATION" "START" event_id seat_id user_id (some reservation_id)
    reservation ← call (self.db.cancel_reservation reservation_id no_payment)
    seat_trace self "DB" "CANCEL_RESERVATION" "SUCCESS" event_id seat_id user_id
        (some reservation_id)
    safe_release self event_id seat_id user_id
    view ← get_event_seat self event_id seat_id
    pure (record { reservation = reservation; seat = view })

  abbrev pub undo_purchase :
      String → String → String → String → AppServerError → Action S ConfirmReply
  undo_purchase reservation_id event_id seat_id user_id e = do
    safe_cancel self reservation_id event_id seat_id user_id
    raise e

  unfoldable pub purchase_seat : String → String → String → ℤ → Action S PurchaseReply
  purchase_seat event_id seat_id user_id hold_seconds = do
    (hold, created) ← hold_reservation event_id seat_id user_id hold_seconds
    let reservation_id = hold.reservation.reservation.reservation_id
    confirmed ←
        on_exception (confirm_reservation reservation_id event_id seat_id user_id)
          (undo_purchase reservation_id event_id seat_id user_id)
    pure (record { confirmed = confirmed; created = created })
