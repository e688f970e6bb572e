-- ===== src/Ticketing/Repository.antt =====
-- ticketing_api/repository.py: each method is one transaction. A statement that violates a constraint
-- raises `sqlite3.IntegrityError`, and the transaction is then not committed: `none`.
use krafton_week.Prelude.{
  ℕ, String, Bool, true, false, ◌&&◌, ◌||◌, not, Option, none, some, List, [], ◌∷◌, ◌++◌, map,
  length, ◌==◌, opt_eq, is_none, ℤ, ltb_ℤ, if◌then◌else◌,
}
use krafton_week.Ticketing.Schema.{
  Event, User, Seat, Reservation, Payment, Database, ReservationRow, held, confirmed, cancelled,
  expired, PaymentStatus, succeeded, is_held, is_confirmed, text_leb,
}
use krafton_week.Ticketing.Tables.{find, any, select, update, order_by, limited}

-- `WHERE status = 'HELD' AND expires_at IS NOT NULL AND expires_at <= now`
abbrev pub is_stale : String → Reservation → Bool
is_stale now r = is_held r.status && (elim r.expires_at [ none ↦ false | some t ↦ text_leb t now ])

abbrev pub expire_row : String → Reservation → Reservation
expire_row now r = record r { status = expired; updated_at = now }

unfoldable pub expire_stale_reservations : String → Database → ℕ × Database
expire_stale_reservations now db = (
  length (select (is_stale now) db.reservations),
  record db { reservations = update (is_stale now) (expire_row now) db.reservations },
)

-- `ORDER BY a, b`, for texts
abbrev by_texts : String → String → String → String → Bool
by_texts a b a' b' = if a == a' then text_leb b b' else text_leb a a'

abbrev pub list_events : Database → List Event
list_events db = order_by (λ e f. by_texts e.starts_at e.event_id f.starts_at f.event_id) db.events

abbrev pub get_event : String → Database → Option Event
get_event event_id db = find (λ e. e.event_id == event_id) db.events

unfoldable pub get_user : String → Database → Option User
get_user user_id db = find (λ u. u.user_id == user_id) db.users

-- `INSERT OR IGNORE`
unfoldable pub create_user : String → String → String → String → Database → Database
create_user user_id display_name email created_at db =
    if any (λ u. u.user_id == user_id) db.users then db else record db {
      users =
          db.users
          ++ record {
            user_id = user_id;
            display_name = display_name;
            email = email;
            created_at = created_at;
          }
            ∷ [];
    }

unfoldable pub get_seat : String → String → Database → Option Seat
get_seat event_id seat_id db = find (λ s. s.event_id == event_id && s.seat_id == seat_id) db.seats

-- The confirmed reservations of a seat.
abbrev is_sold : String → String → Reservation → Bool
is_sold event_id seat_id r = r.event_id == event_id && r.seat_id == seat_id && is_confirmed r.status

unfoldable pub has_confirmed_reservation : String → String → Database → Bool
has_confirmed_reservation event_id seat_id db = any (is_sold event_id seat_id) db.reservations

-- A seat with the status that `list_seats` shows: confirmed or available.
pub record SeatRow : Type 0 where
  pub seat : Seat
  pub is_sold : Bool

abbrev seat_before : Seat → Seat → Bool
seat_before a b =
    if a.section == b.section && a.row_label == b.row_label
    then not (ltb_ℤ b.seat_number a.seat_number)
    else by_texts a.section a.row_label b.section b.row_label

abbrev pub list_seats : String → Database → List SeatRow
unfolding has_confirmed_reservation
list_seats event_id db =
    map (λ s. record { seat = s; is_sold = has_confirmed_reservation s.event_id s.seat_id db })
      (order_by seat_before (select (λ s. s.event_id == event_id) db.seats))

unfoldable pub payment_of : String → Database → Option Payment
payment_of reservation_id db = find (λ p. p.reservation_id == reservation_id) db.payments

abbrev pub joined : Database → Reservation → ReservationRow
joined db r = record { reservation = r; payment = payment_of r.reservation_id db }

-- `ORDER BY created_at DESC, reservation_id DESC`
abbrev pub list_user_reservations : String → Database → List ReservationRow
list_user_reservations user_id db = map (joined db) (
    order_by (λ a b. by_texts b.created_at b.reservation_id a.created_at a.reservation_id)
      (select (λ r. r.user_id == user_id) db.reservations))

abbrev pub list_confirmed_seats : String → Database → List Reservation
list_confirmed_seats event_id db =
    order_by (λ a b. text_leb a.seat_id b.seat_id)
      (select (λ r. r.event_id == event_id && is_confirmed r.status) db.reservations)

-- A missing time is less than any other, as `NULL` is in SQLite's order.
abbrev by_optional_time : Option String → String → Option String → String → Bool
by_optional_time none a none b = text_leb a b
by_optional_time none a (some t) b = true
by_optional_time (some s) a none b = false
by_optional_time (some s) a (some t) b = by_texts s a t b

abbrev pub list_confirmed_reservations : Option ℕ → Database → List Reservation
list_confirmed_reservations limit db = limited limit (
    order_by
      (λ a b. by_optional_time a.confirmed_at a.reservation_id b.confirmed_at b.reservation_id)
      (select (λ r. is_confirmed r.status) db.reservations))

unfoldable pub list_stale_held_reservations : String → ℕ → Database → List Reservation
list_stale_held_reservations now limit db = limited (some limit) (
    order_by (λ a b. by_optional_time a.expires_at a.reservation_id b.expires_at b.reservation_id)
      (select (is_stale now) db.reservations))

abbrev pub has_id : String → Reservation → Bool
has_id reservation_id r = r.reservation_id == reservation_id

abbrev join_found : Database → Option Reservation → Option ReservationRow
join_found db none = none
join_found db (some r) = some (joined db r)

unfoldable pub find_reservation : String → Database → Option Reservation
find_reservation reservation_id db = find (has_id reservation_id) db.reservations

unfoldable pub get_reservation : String → Database → Option ReservationRow
get_reservation reservation_id db = join_found db (find_reservation reservation_id db)

-- The insertion of a reservation that is held: the id and the token are new, and the seat and the user
-- exist.
unfoldable pub create_held_reservation :
    String → String → String → String → String → String → String → Database → Option Database
unfolding get_seat get_user
create_held_reservation reservation_id event_id seat_id user_id hold_token expires_at now db =
    if any (has_id reservation_id) db.reservations
      || any (λ r. opt_eq r.hold_token (some hold_token)) db.reservations
      || is_none (get_seat event_id seat_id db)
      || is_none (get_user user_id db)
    then none
    else some (record db {
      reservations =
          db.reservations
          ++ record {
            reservation_id = reservation_id;
            event_id = event_id;
            seat_id = seat_id;
            user_id = user_id;
            status = held;
            hold_token = some hold_token;
            expires_at = some expires_at;
            created_at = now;
            updated_at = now;
            confirmed_at = none;
            cancelled_at = none;
          }
            ∷ [];
    })

-- What is written of a payment.
pub record PaymentPayload : Type 0 where
  pub payment_id : String
  pub payment_status : PaymentStatus
  pub amount : ℤ
  pub provider : String
  pub provider_ref : String

abbrev pub new_payment : PaymentPayload → String → String → Payment
new_payment p reservation_id now = record {
  payment_id = p.payment_id;
  reservation_id = reservation_id;
  status = p.payment_status;
  amount = p.amount;
  provider = p.provider;
  provider_ref = p.provider_ref;
  created_at = now;
  updated_at = now;
}

abbrev pub replace_payment : PaymentPayload → String → Payment → Payment
replace_payment p now old = record old {
  payment_id = p.payment_id;
  status = p.payment_status;
  amount = p.amount;
  provider = p.provider;
  provider_ref = p.provider_ref;
  updated_at = now;
}

-- `INSERT INTO payments … ON CONFLICT(reservation_id) DO UPDATE`. The payment's id may not be that of
-- another reservation's payment, and the reservation exists.
unfoldable pub upsert_payment : PaymentPayload → String → String → Database → Option Database
upsert_payment p reservation_id now db =
    if any (λ q. q.payment_id == p.payment_id && not (q.reservation_id == reservation_id))
        db.payments
      || not (any (has_id reservation_id) db.reservations)
    then none
    else if any (λ q. q.reservation_id == reservation_id) db.payments
    then some (record db {
      payments =
          update (λ q. q.reservation_id == reservation_id) (replace_payment p now) db.payments;
    })
    else some (record db { payments = db.payments ++ new_payment p reservation_id now ∷ [] })

-- The unique index on confirmed seats stands against confirming the row.
abbrev pub is_rival : Reservation → Reservation → Bool
is_rival r q = is_sold r.event_id r.seat_id q && not (q.reservation_id == r.reservation_id)

abbrev pub confirm_row : String → Reservation → Reservation
confirm_row now r = record r { status = confirmed; updated_at = now; confirmed_at = some now }

-- `UPDATE reservations SET status = 'CONFIRMED' …`
unfoldable pub set_confirmed : String → String → Database → Option Database
unfolding find_reservation
set_confirmed reservation_id now db = elim (find_reservation reservation_id db) [
  | none ↦ some db
  | some r ↦
      if any (is_rival r) db.reservations
      then none
      else some (record db {
        reservations = update (has_id reservation_id) (confirm_row now) db.reservations;
      })
]

abbrev pub and_then : Option Database → (Database → Option Database) → Option Database
and_then none f = none
and_then (some db) f = f db

unfoldable pub confirm_reservation :
    String → String → ℤ → String → String → String → Database → Option Database
confirm_reservation reservation_id payment_id amount provider provider_ref now db =
    and_then
      (upsert_payment
        (record {
          payment_id = payment_id;
          payment_status = succeeded;
          amount = amount;
          provider = provider;
          provider_ref = provider_ref;
        })
        reservation_id now db)
      (set_confirmed reservation_id now)

abbrev pub cancel_row : String → Reservation → Reservation
cancel_row now r = record r { status = cancelled; updated_at = now; cancelled_at = some now }

abbrev optional_payment : Option PaymentPayload → String → String → Database → Option Database
optional_payment none reservation_id now db = some db
optional_payment (some p) reservation_id now db = upsert_payment p reservation_id now db

unfoldable pub set_cancelled : String → String → Database → Database
set_cancelled reservation_id now db = record db {
  reservations = update (has_id reservation_id) (cancel_row now) db.reservations;
}

unfoldable pub cancel_reservation :
    String → String → Option PaymentPayload → Database → Option Database
unfolding set_cancelled
cancel_reservation reservation_id now payment_payload db =
    and_then (optional_payment payment_payload reservation_id now db)
      (λ db'. some (set_cancelled reservation_id now db'))

unfoldable pub expire_reservation : String → String → Database → Database
expire_reservation reservation_id now db = record db {
  reservations = update (has_id reservation_id) (expire_row now) db.reservations;
}
