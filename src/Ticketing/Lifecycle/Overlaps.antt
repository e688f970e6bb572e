-- ===== src/Ticketing/Lifecycle/Overlaps.antt =====
-- ticketing_api/service.py with requests that overlap, as those of a server with several threads do: a
-- request is divided into its transactions, and other requests run between them.
pub mod Writes
pub mod Drift
pub mod Safety
pub mod Sold
use krafton_week.Prelude.{ℕ, ◌+◌, String, Option, none, some, List, [], ◌∷◌, eqb, if◌then◌else◌}
use krafton_week.Effects.{Result}
use krafton_week.Ticketing.Schema.{
  Reservation, Database, ReservationRow, HeldReservationCreate, ConfirmReservationRequest,
  CancelReservationRequest,
}
use krafton_week.Ticketing.Repository
use krafton_week.Ticketing.Service
use krafton_week.Ticketing.Service.{World}
use krafton_week.Ticketing.Workflows

-- A request that changes the status of a reservation.
pub data Call : Type 0 where
  confirm_call : String → ConfirmReservationRequest → Call
  cancel_call : String → CancelReservationRequest → Call
  expire_call : String → Call

abbrev pub id_of : Call → String
id_of (confirm_call i request) = i
id_of (cancel_call i request) = i
id_of (expire_call i) = i

-- How far a thread is: it has a request that has expired the stale holds and reads its reservation
-- next, or one that has read it and goes on from the row.
pub data Stage : Type 0 where
  idle : Stage
  reading : Call → Stage
  deciding : Call → ReservationRow → Stage

pub record State : Type 0 where
  pub world : World
  pub stages : ℕ → Stage

-- Between the events below nothing is in progress. A list of reservations, seats or stale holds, and
-- the first part of a creation, are sweeps; the other parts of a creation write whether their checks
-- have passed or not.
pub data Event : Type 0 where
  arrives : ℕ → Call → Event
  goes_on : ℕ → Event
  sweeps : Event
  adds_user : String → Option String → Event
  inserts : HeldReservationCreate → Event

abbrev pub put : ℕ → Stage → (ℕ → Stage) → ℕ → Stage
put n stage stages m = if eqb n m then stage else stages m

abbrev pub found : Call → Option ReservationRow → Stage
found call none = idle
found call (some row) = deciding call row

module _ (clock : ℕ → String) where
  abbrev pub swept : World → World
  swept w = (Service.expire_stale clock w).1

  -- What a method does with the row that it has read.
  abbrev pub carry_on : Call → ReservationRow → World → World
  carry_on (confirm_call i request) row w =
      (Workflows.confirm_from clock row.reservation.status i request row w).1
  carry_on (cancel_call i request) row w =
      (Workflows.cancel_from clock row.reservation.status i request row w).1
  carry_on (expire_call i) row w = (Workflows.expire_from clock row.reservation.status i row w).1

  abbrev pub accept : Call → Stage → World → Stage × World
  accept call idle w = (reading call, swept w)
  accept call stage w = (stage, w)

  abbrev pub advance : Stage → World → Stage × World
  advance idle w = (idle, w)
  advance (reading call) w = (found call (Repository.get_reservation (id_of call) w.db), w)
  advance (deciding call row) w = (idle, carry_on call row w)

  abbrev pub stored : Option Database → World → World
  stored none w = record w { reads = w.reads + 1 }
  stored (some db) w = record { db = db; reads = w.reads + 1 }

  abbrev pub inserted : HeldReservationCreate → World → World
  inserted q w =
      stored
        (Repository.create_held_reservation q.reservation_id q.event_id q.seat_id q.user_id
          q.hold_token q.expires_at (clock w.reads) w.db)
        w

  abbrev pub at_thread : ℕ → State → Stage × World → State
  at_thread n s (stage, w) = record { world = w; stages = put n stage s.stages }

  unfoldable pub happens : Event → State → State
  happens (arrives n call) s = at_thread n s (accept call (s.stages n) s.world)
  happens (goes_on n) s = at_thread n s (advance (s.stages n) s.world)
  happens sweeps s = record s { world = swept s.world }
  happens (adds_user user_id rest) s = record s {
    world = (Service.create_load_user clock user_id rest s.world).1;
  }
  happens (inserts q) s = record s { world = inserted q s.world }

  unfoldable pub all_happen : List Event → State → State
  unfolding happens
  all_happen [] s = s
  all_happen (event ∷ events) s = all_happen events (happens event s)
