-- ===== src/AppServer/Orchestrator.antt =====
-- app_server/service.py: the state of the orchestrator, its traces, and the requests that one call
-- of a service answers.
pub mod Steps
pub mod Reservations
pub mod Calls
pub mod Finalization
pub mod Attempts
use Prim.Native.String.{◌++◌}
use krafton_week.Prelude.{
  ℕ, ◌+◌, String, Bool, ◌&&◌, ◌||◌, Option, none, some, List, [], ◌∷◌, ◌==◌, opt_eq, ℤ,
  if◌then◌else◌,
}
use krafton_week.Effects.{Result, ok, err, Exec, pure, raise, ◌>>=◌, ◌>>◌}
use krafton_week.Storage.Seats.{SeatStatus, seat_held, seat_confirmed}
use krafton_week.Ticketing.Schema.{Event, ReservationRow}
use krafton_week.Ticketing.Repository.{SeatRow}
use krafton_week.AppServer.Clients.{
  AppServerError, not_found, SeatCommandResult, QueueJoinResult, QueuePositionResult,
  QueueFrontResult, QueueLeaveResult, RedisClientProtocol, DbClientProtocol,
}
use krafton_week.AppServer.OrchestrationLog
use krafton_week.AppServer.OrchestrationLog.{OrchestrationLogEntry, OrchestrationLogStore}

-- The clients, and what Python's library gives at its `n`-th use: the text of the clock for the log,
-- `uuid4().hex`, and the ISO text of the time that is so many seconds ahead, which is an
-- `OverflowError` beyond the last year of `datetime`.
pub record TicketingOrchestratorService (S : Type 0) : Type 0 where
  pub redis : RedisClientProtocol S
  pub db : DbClientProtocol S
  pub log_time : ℕ → String
  pub uuid_hex : ℕ → String
  pub seconds_ahead : ℕ → ℤ → Result AppServerError String

-- The services, the log, and how often the library has been used.
pub record App (S : Type 0) : Type 0 where
  pub services : S
  pub log : OrchestrationLogStore
  pub draws : ℕ

abbrev pub Action : Type 0 → Type 0 → Type 0
Action S A = Exec AppServerError (App S) A

-- A seat's row as the views show it.
pub record SeatView : Type 0 where
  pub seat : SeatRow
  pub status : String
  pub held_by_user_id : Option String
  pub hold_ttl : Option ℤ

-- `seat["status"]`, as the database service computes it.
abbrev row_status : SeatRow → String
row_status row = if row.is_sold then seat_confirmed else "AVAILABLE"

abbrev seat_view : SeatRow → SeatStatus → SeatView
seat_view row status =
    if row_status row == seat_confirmed || status.state == seat_confirmed
    then record { seat = row; status = seat_confirmed; held_by_user_id = none; hold_ttl = none }
    else if status.state == seat_held
    then record {
      seat = row;
      status = seat_held;
      held_by_user_id = status.user_id;
      hold_ttl = some status.ttl;
    }
    else record { seat = row; status = "AVAILABLE"; held_by_user_id = none; hold_ttl = none }

abbrev pub seat_conflict_message : SeatCommandResult → String → String
seat_conflict_message result requested_user_id =
    if result.state == seat_confirmed
    then "seat is already confirmed"
    else if result.state == seat_held && opt_eq result.user_id (some requested_user_id)
    then "seat is already held by this user"
    else if result.state == seat_held
    then "seat is already held by another user"
    else "seat is not available"

abbrev pub seat_not_found : String → String → AppServerError
seat_not_found event_id seat_id =
    not_found ("seat '" ++ (seat_id ++ ("' for event '" ++ (event_id ++ "' was not found"))))

module _ {S : Type 0} where
  -- The first seat of the list with the id.
  abbrev pub seat_of : String → String → List SeatRow → Action S SeatRow
  seat_of event_id seat_id [] = raise (seat_not_found event_id seat_id)
  seat_of event_id seat_id (row ∷ rows) =
      let rest = seat_of event_id seat_id rows in
      if row.seat.seat_id == seat_id then pure row else rest

  -- A call of a service: its exceptions go on, and what it did stays done.
  abbrev pub call : {A : Type 0} → Exec AppServerError S A → Action S A
  call m w = let (r, s) = m w.services in (r, record w { services = s })

  -- One use of the library.
  abbrev pub draw : {A : Type 0} → (ℕ → Result AppServerError A) → Action S A
  draw f w = (f w.draws, record w { draws = w.draws + 1 })

module _ {S : Type 0} (self : TicketingOrchestratorService S) where
  unfoldable pub trace :
      String
      → String
      → String
      → String
      → Option String
      → Option String
      → Option String
      → Option String
      → Action S (Unit {0})
  trace source target action status event_id seat_id user_id detail w = (
    ok tt,
    record w {
      log =
          OrchestrationLog.record_entry (self.log_time w.draws) source target action status event_id
            seat_id user_id detail w.log;
      draws = w.draws + 1;
    },
  )

  unfoldable pub list_orchestration_logs : ℕ → Action S (List OrchestrationLogEntry)
  unfolding OrchestrationLog.list_entries
  list_orchestration_logs limit w = (ok (OrchestrationLog.list_entries limit w.log), w)

  unfoldable pub clear_orchestration_logs : Action S (Unit {0})
  clear_orchestration_logs w = (ok tt, record w { log = OrchestrationLog.clear w.log })

  unfoldable pub list_events : Action S (List Event)
  list_events = call self.db.list_events

  abbrev pub view_each : String → List SeatRow → Action S (List SeatView)
  view_each event_id [] = pure []
  view_each event_id (row ∷ rows) = do
    status ← call (self.redis.seat_status event_id row.seat.seat_id)
    views ← view_each event_id rows
    pure (seat_view row status ∷ views)

  unfoldable pub list_event_seats : String → Action S (List SeatView)
  list_event_seats event_id = do
    seats ← call (self.db.list_event_seats event_id)
    view_each event_id seats

  unfoldable pub find_event_seat : String → String → Action S SeatRow
  find_event_seat event_id seat_id = do
    seats ← call (self.db.list_event_seats event_id)
    seat_of event_id seat_id seats

  unfoldable pub get_event_seat : String → String → Action S SeatView
  get_event_seat event_id seat_id = do
    row ← find_event_seat event_id seat_id
    status ← call (self.redis.seat_status event_id seat_id)
    pure (seat_view row status)

  unfoldable pub list_user_reservations : String → Action S (List ReservationRow)
  list_user_reservations user_id = call (self.db.list_user_reservations user_id)

  -- The replies have the fields of the results.
  unfoldable pub join_queue : String → String → Action S QueueJoinResult
  join_queue event_id user_id = call (self.redis.join_queue event_id user_id)

  unfoldable pub queue_position : String → String → Action S QueuePositionResult
  queue_position event_id user_id = call (self.redis.queue_position event_id user_id)

  unfoldable pub leave_queue : String → String → Action S QueueLeaveResult
  leave_queue event_id user_id = call (self.redis.leave_queue event_id user_id)

  unfoldable pub peek_queue : String → Action S QueueFrontResult
  peek_queue event_id = call (self.redis.peek_queue event_id)
