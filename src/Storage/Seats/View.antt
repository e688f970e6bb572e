-- ===== src/Storage/Seats/View.antt =====
-- The abstract seat: what the entry of a seat stands for at a moment, and how the seat commands are
-- to act on it.
use krafton_week.Prelude.{
  String, ◌≡◌, Bool, true, false, Option, none, some, ◌==◌, eq_iff, arith, ℤ, negsuc, ◌-ℤ◌, ◌<ℤ◌,
  if◌then◌else◌,
}
use krafton_week.Effects.{ok}
use krafton_week.Dict.{lookup, lookup-erase}
use krafton_week.Storage.Ttl.{remaining_seconds}
use krafton_week.Storage.Engine.{Entry, Store, has_expired, purge_if_expired}
use krafton_week.Storage.Seats.{
  SeatStatus, seat_held, seat_confirmed, available_status, held_entry, confirmed_entry,
  seat_status_by_key,
}
use krafton_week.Storage.Seats.Record.{deserialize-serialize_seat_record}

pub data Seat : Type 0 where
  available : Seat
  -- the user, and the end of the hold
  held : String → ℤ → Seat
  confirmed : String → Seat

-- An entry that has not expired.
abbrev pub live : ℤ → Option Entry → Option Entry
live now none = none
live now (some e) = if has_expired now e then none else some e

-- At `now`, the entry of `key` stands for the seat.
abbrev pub Shows : ℤ → Store → String → Seat → Type 0
Shows now s key available = live now (lookup key s) ≡ none
Shows now s key (held u d) = (lookup key s ≡ some (held_entry u d)) × (now <ℤ d)
Shows now s key (confirmed u) = lookup key s ≡ some (confirmed_entry u)

-- The status that a client is told.
abbrev pub told : ℤ → Seat → SeatStatus
told now available = available_status
told now (held u d) = record {
  state = seat_held;
  user_id = some u;
  ttl = remaining_seconds (d -ℤ now);
}
told now (confirmed u) = record { state = seat_confirmed; user_id = some u; ttl = negsuc 0 }

-- The specification of the commands: whether they succeed, and the seat that they leave.
abbrev pub reserve : String → ℤ → Seat → Bool × Seat
reserve u d available = (true, held u d)
reserve u d (held v e) = if v == u then (true, held u d) else (false, held v e)
reserve u d (confirmed v) = (false, confirmed v)

abbrev pub confirm : String → Seat → Bool × Seat
confirm u available = (false, available)
confirm u (held v e) = if v == u then (true, confirmed u) else (false, held v e)
confirm u (confirmed v) = (v == u, confirmed v)

abbrev pub release : String → Seat → Bool × Seat
release u available = (false, available)
release u (held v e) = if v == u then (true, available) else (false, held v e)
release u (confirmed v) = (false, confirmed v)

-- Purging a key drops its entry if it has expired, and no other.
pub lookup-purge_if_expired :
    (now : ℤ) (k j : String) (s : Store)
    → lookup j (purge_if_expired now k s).1 ≡ (if k == j then live now (lookup k s) else lookup j s)
unfolding purge_if_expired
lookup-purge_if_expired now k j s = ground (arith, lookup-erase j k s, eq_iff k j)

-- The status of a seat is told as it stands, and only an expired entry is dropped.
pub seat_status_by_key-Shows :
    (now : ℤ) (s : Store) (key : String) (a : Seat)
    → Shows now s key a
    → seat_status_by_key now key s ≡ (ok (told now a), (purge_if_expired now key s).1)
unfolding seat_status_by_key
seat_status_by_key-Shows now s key available h =
    ground (arith, lookup-erase key key s, eq_iff key key)
seat_status_by_key-Shows now s key (held u d) h =
    ground (arith, deserialize-serialize_seat_record seat_held (some u))
seat_status_by_key-Shows now s key (confirmed u) h =
    ground (arith, deserialize-serialize_seat_record seat_confirmed (some u))
