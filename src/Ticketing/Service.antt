-- ===== src/Ticketing/Service.antt =====
-- ticketing_api/service.py. A method is an action on the database and on the clock: `clock n` is what
-- the `n`-th call of `current_timestamp` returns.
use Prim.Native.String.{◌++◌}
use krafton_week.Prelude.{ℕ, String, Option, none, some, List, ◌==◌, ◌+◌, if◌then◌else◌}
use krafton_week.Text.{strip_prefix}
use krafton_week.Effects.{ok, err, Exec, pure, raise, or_raise, ◌>>=◌, ◌>>◌}
use krafton_week.Ticketing.Schema.{Event, User, Seat, Database, ReservationRow}
use krafton_week.Ticketing.Repository
use krafton_week.Ticketing.Repository.{PaymentPayload, SeatRow}

-- What a request is refused for.
pub data Reason : Type 0 where
  different_payload seat_already_confirmed hold_token_in_use different_payment : Reason
  cannot_transition partial_payment : Reason

pub data Error : Type 0 where
  event_not_found user_not_found seat_not_found reservation_not_found : Error
  conflict : Reason → Error
  -- `sqlite3.IntegrityError`, where the service does not catch it
  integrity_error : Error

pub record World : Type 0 where
  pub db : Database
  -- how often the clock has been read
  pub reads : ℕ

abbrev pub Action : Type 0 → Type 0
Action A = Exec Error World A

abbrev pub ask : {A : Type 0} → (Database → A) → Action A
ask f w = (ok (f w.db), w)

abbrev pub write : (Database → Database) → Action (Unit {0})
write f w = (ok tt, record w { db = f w.db })

-- A transaction that may violate a constraint; the exception is then another, or the same.
abbrev pub commit : Option Database → Error → Action (Unit {0})
commit none e w = (err e, w)
commit (some db') e w = (ok tt, record w { db = db' })

abbrev pub transact : (Database → Option Database) → Error → Action (Unit {0})
transact f e w = commit (f w.db) e w

module _ (clock : ℕ → String) where
  abbrev pub current_timestamp : Action String
  current_timestamp w = (ok (clock w.reads), record w { reads = w.reads + 1 })

  unfoldable pub expire_stale : Action (Unit {0})
  expire_stale = do
    now ← current_timestamp
    write (λ db. (Repository.expire_stale_reservations now db).1)

  unfoldable pub require_event : String → Action Event
  require_event event_id = do or_raise (← ask (Repository.get_event event_id)) event_not_found

  abbrev pub require_user : String → Action User
  require_user user_id = do or_raise (← ask (Repository.get_user user_id)) user_not_found

  unfoldable pub require_seat : String → String → Action Seat
  require_seat event_id seat_id = do
    or_raise (← ask (Repository.get_seat event_id seat_id)) seat_not_found

  unfoldable pub require_reservation : String → Action ReservationRow
  require_reservation reservation_id = do
    expire_stale
    or_raise (← ask (Repository.get_reservation reservation_id)) reservation_not_found

  -- `removeprefix(…) or "crowd"`
  abbrev pub alias : String → String
  alias s = if s == "" then "crowd" else s

  abbrev pub create_load_user : String → Option String → Action User
  create_load_user user_id none = raise user_not_found
  create_load_user user_id (some rest) = do
    now ← current_timestamp
    write
        (Repository.create_user user_id ("Load User " ++ alias rest) (user_id ++ "@demo.local") now)
    or_raise (← ask (Repository.get_user user_id)) user_not_found

  abbrev pub user_or_new : String → Option User → Action User
  user_or_new user_id (some user) = pure user
  user_or_new user_id none = create_load_user user_id (strip_prefix "load-user-" user_id)

  unfoldable pub ensure_user : String → Action User
  ensure_user user_id = do user ← ask (Repository.get_user user_id); user_or_new user_id user

  unfoldable pub list_event_seats : String → Action (List SeatRow)
  list_event_seats event_id = do
    expire_stale
    require_event event_id
    ask (Repository.list_seats event_id)
