-- ===== src/Ticketing/Repeats.antt =====
-- ticketing_api/service.py: requests that are sent again, as a client does that has had no answer.
use krafton_week.Prelude.{
  ◌≢◌, sym, true, Bool-cases, inl, inr, Option, none, ◌==◌, eq_iff, ℕ, ◌+◌, String, ◌≡◌, refl, ◌∙◌,
  ap, false, some, arith, if◌then◌else◌,
}
use krafton_week.Effects.{Result, ok, err, ◌>>=◌}
use krafton_week.Ticketing.Schema.{
  ConfirmReservationRequest, Payment, is_confirmed, Reservation, Database, ReservationRow,
  ReservationStatus, held, confirmed, cancelled, expired, is_held, is_cancelled,
  CancelReservationRequest,
}
use krafton_week.Ticketing.Repository
use krafton_week.Ticketing.Repository.{payment_of}
use krafton_week.Ticketing.Service
use krafton_week.Ticketing.Service.{World}
use krafton_week.Ticketing.Workflows
use krafton_week.Ticketing.Lifecycle.{settled}
use krafton_week.Ticketing.Lifecycle.Statements.{expire_stale-IsLawful}
use krafton_week.Ticketing.Payments.{found_row, confirm_reservation_replies}

found_settled :
    (i now : String) (db : Database) (r : Reservation)
    → Repository.find_reservation i db ≡ some r
    → is_held r.status ≡ false
    → Repository.find_reservation i (Repository.expire_stale_reservations now db).1 ≡ some r
found_settled i now db r found over =
    let (r', found', move) = (expire_stale-IsLawful now db).evolves i r found in
    found' ∙ ap (λ (x : Reservation). some x) (settled r r' move over)

pub get_reservation-settled :
    (i now : String) (db : Database) (row : ReservationRow)
    → Repository.get_reservation i db ≡ some row
    → is_held row.reservation.status ≡ false
    → Repository.get_reservation i (Repository.expire_stale_reservations now db).1 ≡ some row
unfolding Repository.get_reservation Repository.expire_stale_reservations payment_of
get_reservation-settled i now db row found over =
    ground (arith, found_settled i now db row.reservation (found_row i db row found) over)

-- The world after `_expire_stale`.
abbrev pub freshened : (ℕ → String) → World → World
freshened clock w = record {
  db = (Repository.expire_stale_reservations (clock w.reads) w.db).1;
  reads = w.reads + 1;
}

require_settled :
    (clock : ℕ → String) (i : String) (w : World) (row : ReservationRow)
    → Repository.get_reservation i w.db ≡ some row
    → is_held row.reservation.status ≡ false
    → Service.require_reservation clock i w ≡ (ok row, freshened clock w)
unfolding Service.require_reservation Service.expire_stale
require_settled clock i w row found over =
    rw (get_reservation-settled i (clock w.reads) w.db row found over) refl

module _ {A B : Type 0} where
  bind_ok :
      (m : World → Result Service.Error A × World) (f : A → World → Result Service.Error B × World)
      (w w' : World) (a : A)
      → m w ≡ (ok a, w')
      → (m >>= f) w ≡ f a w'
  bind_ok m f w w' a h = ap (λ (x : Result Service.Error A × World). ((λ (_ : World). x) >>= f) w) h

confirm_from-sold :
    (clock : ℕ → String) (i : String) (request : ConfirmReservationRequest) (w : World)
    (row : ReservationRow) (status : ReservationStatus)
    → is_confirmed status ≡ true
    → Workflows.payment_matches row.payment request ≡ true
    → Workflows.confirm_from clock status i request row w ≡ (ok (some row), w)
confirm_from-sold clock i request w row confirmed is e = rw (e, Workflows.confirm_from) refl
confirm_from-sold clock i request w row held is e = absurd cc
confirm_from-sold clock i request w row cancelled is e = absurd cc
confirm_from-sold clock i request w row expired is e = absurd cc

confirm_from-another :
    (clock : ℕ → String) (i : String) (request : ConfirmReservationRequest) (w : World)
    (row : ReservationRow) (status : ReservationStatus)
    → is_confirmed status ≡ true
    → Workflows.payment_matches row.payment request ≡ false
    → Workflows.confirm_from clock status i request row w
      ≡ (err (Service.conflict Service.different_payment), w)
confirm_from-another clock i request w row confirmed is e = rw (e, Workflows.confirm_from) refl
confirm_from-another clock i request w row held is e = absurd cc
confirm_from-another clock i request w row cancelled is e = absurd cc
confirm_from-another clock i request w row expired is e = absurd cc

confirmed_over : (status : ReservationStatus) → is_confirmed status ≡ true → is_held status ≡ false
confirmed_over confirmed is = refl
confirmed_over held is = absurd cc
confirmed_over cancelled is = refl
confirmed_over expired is = refl

other_payment :
    (p : Option Payment) (request other : ConfirmReservationRequest)
    → Workflows.payment_matches p request ≡ true
    → other.payment_id ≢ request.payment_id
    → Workflows.payment_matches p other ≡ false
other_payment none request other e ne = absurd cc
other_payment (some p) request other e ne = elim (Bool-cases (p.payment_id == other.payment_id)) [
  | inl same ↦ elim (Bool-cases (p.payment_id == request.payment_id)) [
    | inl paid ↦ absurd (
        ne (
          sym ((eq_iff p.payment_id other.payment_id).0 same)
          ∙ (eq_iff p.payment_id request.payment_id).0 paid))
    | inr unpaid ↦ absurd (ground arith)
  ]
  | inr differs ↦ ground arith
]

-- Once a confirmation has returned, the same request sent again has the same reply, a request with another
-- payment's id is a conflict, and neither writes anything but the expiry of stale holds.
pub confirm_twice :
    (clock : ℕ → String) (i : String) (request other : ConfirmReservationRequest) (w w' : World)
    (reply : Option ReservationRow)
    → Workflows.confirm_reservation clock i request w ≡ (ok reply, w')
    → other.payment_id ≢ request.payment_id
    → (Workflows.confirm_reservation clock i request w' ≡ (ok reply, freshened clock w'))
      × (Workflows.confirm_reservation clock i other w'
          ≡ (err (Service.conflict Service.different_payment), freshened clock w'))
unfolding Workflows.confirm_reservation
confirm_twice clock i request other w w' reply h ne =
    let (row, replied, stored, sold, paid) =
      confirm_reservation_replies clock i request w w' reply h in
    let status = row.reservation.status in
    let found = require_settled clock i w' row stored (confirmed_over status sold) in
    let next = freshened clock w' in
    (
      bind_ok (Service.require_reservation clock i)
            (λ row. Workflows.confirm_from clock row.reservation.status i request row) w' next row
            found
          ∙ confirm_from-sold clock i request next row status sold paid
          ∙ ap (λ (x : Option ReservationRow). (ok x, next)) (sym replied),
      bind_ok (Service.require_reservation clock i)
            (λ row. Workflows.confirm_from clock row.reservation.status i other row) w' next row
            found
          ∙ confirm_from-another clock i other next row status sold
              (other_payment row.payment request other paid ne),
    )

cancel_from_cancelled :
    (clock : ℕ → String) (i : String) (request : CancelReservationRequest) (w : World)
    (row : ReservationRow) (status : ReservationStatus)
    → is_held status ≡ false
    → Workflows.cancel_from clock status i request row w ≡ (
      (if is_cancelled status
          then ok (some row)
          else err (Service.conflict Service.cannot_transition)),
      w,
    )
cancel_from_cancelled clock i request w row confirmed over = refl
cancel_from_cancelled clock i request w row held over = absurd cc
cancel_from_cancelled clock i request w row cancelled over = refl
cancel_from_cancelled clock i request w row expired over = refl

-- The cancellation of a stored reservation that is not held any more: one that is cancelled already is the
-- reply, whatever payment is sent; any other is a conflict. Nothing is written but the expiry of
-- stale holds.
pub cancel_again :
    (clock : ℕ → String) (i : String) (request : CancelReservationRequest) (w : World)
    (row : ReservationRow)
    → Repository.get_reservation i w.db ≡ some row
    → is_held row.reservation.status ≡ false
    → Workflows.cancel_reservation clock i request w ≡ (
      (if is_cancelled row.reservation.status
          then ok (some row)
          else err (Service.conflict Service.cannot_transition)),
      freshened clock w,
    )
unfolding Workflows.cancel_reservation
cancel_again clock i request w row found over =
    bind_ok (Service.require_reservation clock i)
      (λ row. Workflows.cancel_from clock row.reservation.status i request row) w
      (freshened clock w) row (require_settled clock i w row found over)
    ∙ cancel_from_cancelled clock i request (freshened clock w) row row.reservation.status over
