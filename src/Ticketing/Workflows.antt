-- ===== src/Ticketing/Workflows.antt =====
-- ticketing_api/service.py: the reservation workflows.
use krafton_week.Prelude.{
  ℕ, ◌+◌, String, Bool, true, false, ◌&&◌, Option, none, some, List, [], ◌∷◌, ◌==◌, opt_eq, is_none,
  ℤ, pos_part, neg_part, eqb, if◌then◌else◌,
}
use krafton_week.Effects.{Result, ok, err, pure, raise, lift, raise_if, ◌>>=◌, ◌>>◌}
use krafton_week.Ticketing.Schema.{
  Event, Reservation, Payment, ReservationRow, ReservationStatus, CancelablePaymentStatus,
  stored_status, HeldReservationCreate, ConfirmReservationRequest, CancelReservationRequest, held,
  confirmed, cancelled, expired, is_succeeded,
}
use krafton_week.Ticketing.Repository
use krafton_week.Ticketing.Repository.{PaymentPayload}
use krafton_week.Ticketing.Service.{
  Error, conflict, different_payload, seat_already_confirmed, hold_token_in_use, different_payment,
  cannot_transition, partial_payment, integrity_error, Action, ask, write, transact,
  current_timestamp, expire_stale, require_event, require_user, require_seat, require_reservation,
  ensure_user,
}

abbrev pub eqb_ℤ : ℤ → ℤ → Bool
eqb_ℤ a b = eqb (pos_part a + neg_part b) (pos_part b + neg_part a)

abbrev pub held_request_matches : Reservation → HeldReservationCreate → Bool
held_request_matches existing request =
    existing.event_id == request.event_id
    && existing.seat_id == request.seat_id
    && existing.user_id == request.user_id
    && opt_eq existing.hold_token (some request.hold_token)
    && opt_eq existing.expires_at (some request.expires_at)

abbrev pub payment_matches : Option Payment → ConfirmReservationRequest → Bool
payment_matches none request = false
payment_matches (some p) request =
    p.payment_id == request.payment_id
    && eqb_ℤ p.amount request.amount
    && p.provider == request.provider
    && p.provider_ref == request.provider_ref
    && is_succeeded p.status

-- All five values are given, or none of them.
abbrev all_none : CancelReservationRequest → Bool
all_none r =
    is_none r.payment_id
    && is_none r.payment_status
    && is_none r.amount
    && is_none r.provider
    && is_none r.provider_ref

abbrev all_given :
    Option String
    → Option CancelablePaymentStatus
    → Option ℤ
    → Option String
    → Option String
    → Option PaymentPayload
all_given (some i) (some s) (some a) (some p) (some r) = some (record {
  payment_id = i;
  payment_status = stored_status s;
  amount = a;
  provider = p;
  provider_ref = r;
})
all_given _ _ _ _ _ = none

abbrev as_payload : Option PaymentPayload → Result Error (Option PaymentPayload)
as_payload none = err (conflict partial_payment)
as_payload (some p) = ok (some p)

abbrev pub validate_cancel_payment_payload :
    CancelReservationRequest → Result Error (Option PaymentPayload)
validate_cancel_payment_payload r =
    if all_none r
    then ok none
    else as_payload (all_given r.payment_id r.payment_status r.amount r.provider r.provider_ref)

module _ (clock : ℕ → String) where
  abbrev pub create_new : HeldReservationCreate → Action (Option ReservationRow × Bool)
  create_new request = do
    sold ← ask (Repository.has_confirmed_reservation request.event_id request.seat_id)
    raise_if sold (conflict seat_already_confirmed)
    now ← current_timestamp clock
    transact
        (Repository.create_held_reservation request.reservation_id request.event_id request.seat_id
          request.user_id request.hold_token request.expires_at now)
        (conflict hold_token_in_use)
    created ← ask (Repository.get_reservation request.reservation_id)
    pure (created, true)

  abbrev pub create_or_repeat :
      HeldReservationCreate → Option ReservationRow → Action (Option ReservationRow × Bool)
  create_or_repeat request none = create_new request
  create_or_repeat request (some existing) =
      if held_request_matches existing.reservation request
      then pure (some existing, false)
      else raise (conflict different_payload)

  -- The reservation, and whether it has been created.
  unfoldable pub create_held_reservation :
      HeldReservationCreate → Action (Option ReservationRow × Bool)
  create_held_reservation request = do
    expire_stale clock
    require_event clock request.event_id
    require_seat clock request.event_id request.seat_id
    ensure_user clock request.user_id
    existing ← ask (Repository.get_reservation request.reservation_id)
    create_or_repeat request existing

  -- Each transition, from the status that the reservation is found in.
  abbrev pub confirm_from :
      ReservationStatus
      → String
      → ConfirmReservationRequest
      → ReservationRow
      → Action (Option ReservationRow)
  confirm_from confirmed reservation_id request row =
      if payment_matches row.payment request
      then pure (some row)
      else raise (conflict different_payment)
  confirm_from held reservation_id request row = do
    now ← current_timestamp clock
    transact
        (Repository.confirm_reservation reservation_id request.payment_id request.amount
          request.provider request.provider_ref now)
        (conflict seat_already_confirmed)
    ask (Repository.get_reservation reservation_id)
  confirm_from _ reservation_id request row = raise (conflict cannot_transition)

  unfoldable pub confirm_reservation :
      String → ConfirmReservationRequest → Action (Option ReservationRow)
  confirm_reservation reservation_id request = do
    row ← require_reservation clock reservation_id
    confirm_from row.reservation.status reservation_id request row

  abbrev pub cancel_held : String → Option PaymentPayload → Action (Option ReservationRow)
  cancel_held reservation_id payload = do
    now ← current_timestamp clock
    transact (Repository.cancel_reservation reservation_id now payload) integrity_error
    ask (Repository.get_reservation reservation_id)

  abbrev pub cancel_from :
      ReservationStatus
      → String
      → CancelReservationRequest
      → ReservationRow
      → Action (Option ReservationRow)
  cancel_from cancelled reservation_id request row = pure (some row)
  cancel_from held reservation_id request row = do
    payload ← lift (validate_cancel_payment_payload request)
    cancel_held reservation_id payload
  cancel_from _ reservation_id request row = raise (conflict cannot_transition)

  unfoldable pub cancel_reservation :
      String → CancelReservationRequest → Action (Option ReservationRow)
  cancel_reservation reservation_id request = do
    row ← require_reservation clock reservation_id
    cancel_from row.reservation.status reservation_id request row

  abbrev pub expire_from :
      ReservationStatus → String → ReservationRow → Action (Option ReservationRow)
  expire_from expired reservation_id row = pure (some row)
  expire_from held reservation_id row = do
    now ← current_timestamp clock
    write (Repository.expire_reservation reservation_id now)
    ask (Repository.get_reservation reservation_id)
  expire_from _ reservation_id row = raise (conflict cannot_transition)

  unfoldable pub expire_reservation : String → Action (Option ReservationRow)
  expire_reservation reservation_id = do
    row ← require_reservation clock reservation_id
    expire_from row.reservation.status reservation_id row

  unfoldable pub list_user_reservations : String → Action (List ReservationRow)
  list_user_reservations user_id = do
    expire_stale clock
    require_user clock user_id
    ask (Repository.list_user_reservations user_id)

  unfoldable pub list_confirmed_seats : String → Action (List Reservation)
  list_confirmed_seats event_id = do
    expire_stale clock
    require_event clock event_id
    ask (Repository.list_confirmed_seats event_id)

  unfoldable pub list_stale_held_reservations : ℕ → Action (List Reservation)
  list_stale_held_reservations limit = do
    now ← current_timestamp clock
    ask (Repository.list_stale_held_reservations now limit)

  -- The `except ConflictError: continue` of the loop below.
  abbrev pub unless_conflict :
      Result Error (Option ReservationRow)
      → Action (List (Option ReservationRow))
      → Action (List (Option ReservationRow))
  unless_conflict (ok row) rest = do rows ← rest; pure (row ∷ rows)
  unless_conflict (err (conflict reason)) rest = rest
  unless_conflict (err e) rest = raise e

  unfoldable pub expire_each : List Reservation → Action (List (Option ReservationRow))
  unfolding expire_reservation
  expire_each [] w = (ok [], w)
  expire_each (r ∷ rs) w =
      let (result, w') = expire_reservation r.reservation_id w in
      unless_conflict result (expire_each rs) w'

  unfoldable pub expire_stale_reservations : ℕ → Action (List (Option ReservationRow))
  unfolding expire_each
  expire_stale_reservations limit = do stale ← list_stale_held_reservations limit; expire_each stale

  unfoldable pub list_events : Action (List Event)
  list_events = ask Repository.list_events

  unfoldable list_confirmed_reservations : Option ℕ → Action (List Reservation)
  list_confirmed_reservations limit = ask (Repository.list_confirmed_reservations limit)
