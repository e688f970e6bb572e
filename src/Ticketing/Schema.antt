-- ===== src/Ticketing/Schema.antt =====
-- ticketing_api/database.py and schemas.py: the tables, a record for a row. A time is the ISO text that
-- is stored, in UTC, and SQL compares such texts byte by byte.
use Prim.Native.String.{compare}
use Prim.Native.Nat.{Ordering}
use krafton_week.Prelude.{String, Bool, true, false, Option, List, [], ℤ}

pub data ReservationStatus : Type 0 where
  held confirmed cancelled expired : ReservationStatus

pub data PaymentStatus : Type 0 where
  succeeded failed cancelled : PaymentStatus

-- The statuses that a cancellation may give its payment.
pub data CancelablePaymentStatus : Type 0 where
  payment_failed payment_cancelled : CancelablePaymentStatus

abbrev pub stored_status : CancelablePaymentStatus → PaymentStatus
stored_status payment_failed = failed
stored_status payment_cancelled = PaymentStatus.cancelled

pub record Event : Type 0 where
  pub event_id : String
  pub title : String
  pub venue : String
  pub starts_at : String
  pub booking_opens_at : String
  pub created_at : String

pub record User : Type 0 where
  pub user_id : String
  pub display_name : String
  pub email : String
  pub created_at : String

pub record Seat : Type 0 where
  pub event_id : String
  pub seat_id : String
  pub seat_label : String
  pub section : String
  pub row_label : String
  pub seat_number : ℤ
  pub price : ℤ
  pub created_at : String

pub record Reservation : Type 0 where
  pub reservation_id : String
  pub event_id : String
  pub seat_id : String
  pub user_id : String
  pub status : ReservationStatus
  pub hold_token : Option String
  pub expires_at : Option String
  pub created_at : String
  pub updated_at : String
  pub confirmed_at : Option String
  pub cancelled_at : Option String

pub record Payment : Type 0 where
  pub payment_id : String
  pub reservation_id : String
  pub status : PaymentStatus
  pub amount : ℤ
  pub provider : String
  pub provider_ref : String
  pub created_at : String
  pub updated_at : String

-- The rows of each table, in the order in which they were inserted.
pub record Database : Type 0 where
  pub events : List Event
  pub users : List User
  pub seats : List Seat
  pub reservations : List Reservation
  pub payments : List Payment

abbrev pub empty : Database
empty = record { events = []; users = []; seats = []; reservations = []; payments = [] }

-- The request bodies. `expires_at` is given as `normalize_timestamp` writes it.
pub record HeldReservationCreate : Type 0 where
  pub reservation_id : String
  pub event_id : String
  pub seat_id : String
  pub user_id : String
  pub hold_token : String
  pub expires_at : String

pub record ConfirmReservationRequest : Type 0 where
  pub payment_id : String
  pub amount : ℤ
  pub provider : String
  pub provider_ref : String

pub record CancelReservationRequest : Type 0 where
  pub payment_id : Option String
  pub payment_status : Option CancelablePaymentStatus
  pub amount : Option ℤ
  pub provider : Option String
  pub provider_ref : Option String

-- A row of `reservations LEFT JOIN payments`.
pub record ReservationRow : Type 0 where
  pub reservation : Reservation
  pub payment : Option Payment

-- `status == 'HELD'` and its likes
abbrev pub is_held : ReservationStatus → Bool
is_held held = true
is_held _ = false

abbrev pub is_confirmed : ReservationStatus → Bool
is_confirmed confirmed = true
is_confirmed _ = false

abbrev pub is_cancelled : ReservationStatus → Bool
is_cancelled cancelled = true
is_cancelled _ = false

abbrev pub is_expired : ReservationStatus → Bool
is_expired expired = true
is_expired _ = false

abbrev pub is_succeeded : PaymentStatus → Bool
is_succeeded succeeded = true
is_succeeded _ = false

-- `a <= b` on stored texts
unfoldable pub text_leb : String → String → Bool
text_leb a b = elim (compare a b) [ Ordering.gt ↦ false | _ ↦ true ]
