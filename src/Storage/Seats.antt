-- ===== src/Storage/Seats.antt =====
-- storage/engine.py: the seat commands. A seat is the entry of its key, a JSON record of a state
-- and a user.
pub mod Record
pub mod View
pub mod Refinement
pub mod Requests
pub mod Safety
pub mod Holds
use Prim.Native.String.{◌++◌}
use krafton_week.Prelude.{
  String, ◌≡◌, refl, Bool, true, false, ◌&&◌, ◌||◌, not, Option, none, some, ◌==◌, opt_eq, ℤ, pos,
  negsuc, ◌-ℤ◌, leb_ℤ, if◌then◌else◌,
}
use krafton_week.Effects.{
  Result, ok, err, Exec, pure, lift, ◌>>=◌, ◌>>◌, run, gets, modify, raise_if,
}
use krafton_week.Dict.{lookup, insert}
use krafton_week.Errors.{Error, value_error, json_decode_error, attribute_error}
use krafton_week.Json.{Json, null, text, object, field, end, Fields, get_field, dumps, loads}
use krafton_week.Storage.Ttl.{compute_deadline, remaining_seconds}
use krafton_week.Storage.Engine.{Entry, Store, delete_key, purge_if_expired}

pub record SeatStatus : Type 0 where
  pub state : String
  pub user_id : Option String
  pub ttl : ℤ

-- `SEAT_AVAILABLE`, `SEAT_HELD`, `SEAT_CONFIRMED`
abbrev seat_available : String
seat_available = "AVAILABLE"

abbrev pub seat_held : String
seat_held = "HELD"

abbrev pub seat_confirmed : String
seat_confirmed = "CONFIRMED"

unfoldable pub seat_key : String → String → String
seat_key event_id seat_id = "seat:" ++ (event_id ++ (":" ++ seat_id))

abbrev user_json : Option String → Json
user_json none = null
user_json (some u) = text u

abbrev pub seat_document : String → Option String → Json
seat_document state user_id =
    object (field "state" (text state) (field "user_id" (user_json user_id) end))

unfoldable pub serialize_seat_record : String → Option String → String
serialize_seat_record state user_id = dumps (seat_document state user_id)

abbrev read_user : String → Option Json → Result Error (String × Option String)
read_user state none = ok (state, none)
read_user state (some null) = ok (state, none)
read_user state (some (text u)) = ok (state, some u)
read_user state (some _) = err (value_error "seat record user_id must be a string or null")

abbrev read_record : Option Json → Option Json → Result Error (String × Option String)
read_record (some (text state)) user_id = read_user state user_id
read_record _ user_id = err (value_error "seat record state must be a string")

-- `payload.get` is an `AttributeError` on what is no dict.
abbrev read_payload : Option Json → Result Error (String × Option String)
read_payload none = err json_decode_error
read_payload (some (object fs)) = read_record (get_field "state" fs) (get_field "user_id" fs)
read_payload (some _) = err attribute_error

unfoldable pub deserialize_seat_record : String → Result Error (String × Option String)
deserialize_seat_record raw_value = read_payload (loads raw_value)

abbrev pub available_status : SeatStatus
available_status = record { state = seat_available; user_id = none; ttl = negsuc 0 }

abbrev entry_ttl : ℤ → Option ℤ → ℤ
entry_ttl now none = negsuc 0
entry_ttl now (some d) = remaining_seconds (d -ℤ now)

abbrev status_of : ℤ → Option Entry → Exec Error Store SeatStatus
status_of now none = pure available_status
status_of now (some entry) = do
  (state, user_id) ← lift (deserialize_seat_record entry.value)
  pure (record { state = state; user_id = user_id; ttl = entry_ttl now entry.expires_at })

unfoldable pub seat_status_by_key : ℤ → String → Exec Error Store SeatStatus
unfolding purge_if_expired
seat_status_by_key now key = do
  purged ← run (purge_if_expired now key)
  if purged then pure available_status else do entry ← gets (lookup key); status_of now entry

-- The entry that holds a seat for a user, and the one that confirms it.
abbrev pub held_entry : String → ℤ → Entry
held_entry user_id deadline = record {
  value = serialize_seat_record seat_held (some user_id);
  expires_at = some deadline;
}

abbrev pub confirmed_entry : String → Entry
confirmed_entry user_id = record {
  value = serialize_seat_record seat_confirmed (some user_id);
  expires_at = none;
}

abbrev pub may_reserve : SeatStatus → String → Bool
may_reserve status user_id =
    status.state == seat_available
    || (status.state == seat_held && opt_eq status.user_id (some user_id))

-- `status.state == state and status.user_id == user_id`
abbrev pub is_seat_of : SeatStatus → String → String → Bool
is_seat_of status state user_id = status.state == state && opt_eq status.user_id (some user_id)

unfoldable pub reserve_seat :
    ℤ → String → String → String → ℤ → Exec Error Store (Bool × SeatStatus)
reserve_seat now event_id seat_id user_id hold_seconds = do
  raise_if (leb_ℤ hold_seconds (pos 0))
      (value_error "RESERVE_SEAT ttl_seconds must be a positive integer")
  let key = seat_key event_id seat_id
  status ← seat_status_by_key now key
  if may_reserve status user_id
      then (do
        modify (insert key (held_entry user_id (compute_deadline now hold_seconds)))
        pure (true, record { state = seat_held; user_id = some user_id; ttl = hold_seconds }))
      else pure (false, status)

pub confirm_seat : ℤ → String → String → String → Exec Error Store (Bool × SeatStatus)
confirm_seat now event_id seat_id user_id = do
  let key = seat_key event_id seat_id
  status ← seat_status_by_key now key
  if is_seat_of status seat_confirmed user_id
      then pure (true, status)
      else if not (is_seat_of status seat_held user_id)
      then pure (false, status)
      else (do
        modify (insert key (confirmed_entry user_id))
        pure (true, record { state = seat_confirmed; user_id = some user_id; ttl = negsuc 0 }))

unfoldable pub force_confirm_seat : String → String → String → Store → (Bool × SeatStatus) × Store
force_confirm_seat event_id seat_id user_id store = (
  (true, record { state = seat_confirmed; user_id = some user_id; ttl = negsuc 0 }),
  insert (seat_key event_id seat_id) (confirmed_entry user_id) store,
)

unfoldable pub release_seat : ℤ → String → String → String → Exec Error Store (Bool × SeatStatus)
release_seat now event_id seat_id user_id = do
  let key = seat_key event_id seat_id
  status ← seat_status_by_key now key
  if not (is_seat_of status seat_held user_id)
      then pure (false, status)
      else (do modify (delete_key key); pure (true, available_status))

abbrev pub seat_status : ℤ → String → String → Exec Error Store SeatStatus
seat_status now event_id seat_id = seat_status_by_key now (seat_key event_id seat_id)
