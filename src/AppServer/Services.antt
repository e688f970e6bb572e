-- ===== src/AppServer/Services.antt =====
-- The services as the clients of app_server/ reach them: the engine of storage/ behind the clients'
-- protocol, and the database service of ticketing_api/. What lies between, the sockets and the HTTP, is
-- taken to pass a request and its reply on. An error reply of the engine is a `ConflictError`; the
-- statuses 404 and 409 of the database service are a `NotFoundError` and a `ConflictError`, any other is
-- an `UpstreamError`. The messages are parameters.
use krafton_week.Prelude.{ℕ, ◌+◌, String, Bool, Option, none, some, ℤ, pos}
use krafton_week.Effects.{Result, ok, err, Exec, run}
use krafton_week.Errors
use krafton_week.Storage.Engine.{Store}
use krafton_week.Storage.Seats
use krafton_week.Storage.Seats.{SeatStatus}
use krafton_week.Storage.Queues
use krafton_week.Ticketing.Schema.{ReservationRow}
use krafton_week.Ticketing.Service
use krafton_week.Ticketing.Service.{World}
use krafton_week.Ticketing.Workflows
use krafton_week.AppServer.Clients.{
  AppServerError, not_found, conflict, upstream, SeatCommandResult, RedisClientProtocol,
  DbClientProtocol,
}
use krafton_week.AppServer.Orchestrator.{TicketingOrchestratorService}

-- The engine's store, how often it has read its clock, and the database with its own clock.
pub record Services : Type 0 where
  pub store : Store
  pub ticks : ℕ
  pub world : World

abbrev pub command_result : Bool × SeatStatus → SeatCommandResult
command_result (success, status) = record {
  success = success;
  state = status.state;
  user_id = status.user_id;
  ttl = status.ttl;
}

module _ (message : Errors.Error → String) {A B : Type 0} where
  abbrev pub engine_reply : (A → B) → Result Errors.Error A → Result AppServerError B
  engine_reply f (ok a) = ok (f a)
  engine_reply f (err e) = err (conflict (message e))

  -- A command, at the engine's next reading of its clock.
  abbrev pub command :
      (ℕ → ℤ) → (A → B) → (ℤ → Exec Errors.Error Store A) → Exec AppServerError Services B
  command now f m s =
      let (r, store) = m (now s.ticks) s.store in
      (engine_reply f r, record s { store = store; ticks = s.ticks + 1 })

abbrev engine_client : (ℕ → ℤ) → (Errors.Error → String) → RedisClientProtocol Services
engine_client now message = record {
  seat_status = λ e t. command message now (λ a. a) (λ at. Seats.seat_status at e t);
  reserve_seat =
      λ e t u secs. command message now command_result (λ at. Seats.reserve_seat at e t u secs);
  confirm_seat = λ e t u. command message now command_result (λ at. Seats.confirm_seat at e t u);
  force_confirm_seat =
      λ e t u. command message now command_result (λ at. run (Seats.force_confirm_seat e t u));
  release_seat = λ e t u. command message now command_result (λ at. Seats.release_seat at e t u);
  join_queue = λ e u.
      command message now
        (λ (joined, position, n). record {
          joined = joined;
          position = pos position;
          queue_length = pos n;
        })
        (λ at. Queues.join_queue e u);
  queue_position = λ e u.
      command message now (λ (position, n). record { position = position; queue_length = pos n })
        (λ at. Queues.queue_position e u);
  leave_queue = λ e u.
      command message now
        (λ (removed, position, n). record {
          removed = removed;
          previous_position = position;
          queue_length = pos n;
        })
        (λ at. Queues.leave_queue e u);
  peek_queue = λ e.
      command message now (λ (user_id, n). record { user_id = user_id; queue_length = pos n })
        (λ at. Queues.peek_queue e);
}

module _ (detail : Service.Error → String) where
  abbrev app_error : Service.Error → AppServerError
  app_error (Service.conflict reason) = conflict (detail (Service.conflict reason))
  app_error Service.integrity_error = upstream (detail Service.integrity_error)
  app_error e = not_found (detail e)

  abbrev pub db_reply : {A : Type 0} → Result Service.Error A → Result AppServerError A
  db_reply (ok a) = ok a
  db_reply (err e) = err (app_error e)

  -- A row that is missing has no response model.
  abbrev pub row_reply :
      Result Service.Error (Option ReservationRow) → Result AppServerError ReservationRow
  row_reply (ok none) = err (upstream "DB request failed with status 500")
  row_reply (ok (some row)) = ok row
  row_reply (err e) = err (app_error e)

  abbrev created_reply :
      Result Service.Error (Option ReservationRow × Bool)
      → Result AppServerError (ReservationRow × Bool)
  created_reply (ok (none, created)) = err (upstream "DB request failed with status 500")
  created_reply (ok (some row, created)) = ok (row, created)
  created_reply (err e) = err (app_error e)

abbrev db_request :
    {A B : Type 0}
    → (Result Service.Error A → Result AppServerError B)
    → Service.Action A
    → Exec AppServerError Services B
db_request f m s = let (r, world) = m s.world in (f r, record s { world = world })

abbrev db_client : (ℕ → String) → (Service.Error → String) → DbClientProtocol Services
db_client clock detail = record {
  list_events = db_request (db_reply detail) (Workflows.list_events clock);
  list_event_seats = λ e. db_request (db_reply detail) (Service.list_event_seats clock e);
  create_held_reservation =
      λ q. db_request (created_reply detail) (Workflows.create_held_reservation clock q);
  confirm_reservation =
      λ i q. db_request (row_reply detail) (Workflows.confirm_reservation clock i q);
  cancel_reservation =
      λ i q. db_request (row_reply detail) (Workflows.cancel_reservation clock i q);
  expire_reservation = λ i. db_request (row_reply detail) (Workflows.expire_reservation clock i);
  list_user_reservations =
      λ u. db_request (db_reply detail) (Workflows.list_user_reservations clock u);
}

-- What the services and the orchestrator take from Python's library: the clocks, the texts of
-- exceptions, and the orchestrator's own uses.
pub record Setting : Type 0 where
  pub now : ℕ → ℤ
  pub clock : ℕ → String
  pub message : Errors.Error → String
  pub detail : Service.Error → String
  pub log_time : ℕ → String
  pub uuid_hex : ℕ → String
  pub seconds_ahead : ℕ → ℤ → Result AppServerError String

-- The orchestrator with both services.
abbrev pub orchestrator : Setting → TicketingOrchestratorService Services
orchestrator g = record {
  redis = engine_client g.now g.message;
  db = db_client g.clock g.detail;
  log_time = g.log_time;
  uuid_hex = g.uuid_hex;
  seconds_ahead = g.seconds_ahead;
}

-- What becomes of a command that `execute` sends, once more when the connection fails: it is answered;
-- the connection fails before the engine performs it, or after that; or only its first answer is lost,
-- so that it is performed twice, and the second answer arrives or is lost, too.
pub data Fate : Type 0 where
  answered repeated : Fate
  lost_request lost_reply lost_again : String → Fate

abbrev pub through :
    {A : Type 0} → Fate → Exec AppServerError Services A → Exec AppServerError Services A
through answered m s = m s
through repeated m s = m (m s).1
through (lost_request message) m s = (err (upstream message), record s { ticks = s.ticks + 1 })
through (lost_reply message) m s = (err (upstream message), (m s).1)
through (lost_again message) m s = (err (upstream message), (m (m s).1).1)

-- A client whose command at the engine's `n`-th reading of its clock has the fate `fate n`.
abbrev unreliable : (ℕ → Fate) → RedisClientProtocol Services → RedisClientProtocol Services
unreliable fate redis = record {
  seat_status = λ e t s. through (fate s.ticks) (redis.seat_status e t) s;
  reserve_seat = λ e t u secs s. through (fate s.ticks) (redis.reserve_seat e t u secs) s;
  confirm_seat = λ e t u s. through (fate s.ticks) (redis.confirm_seat e t u) s;
  force_confirm_seat = λ e t u s. through (fate s.ticks) (redis.force_confirm_seat e t u) s;
  release_seat = λ e t u s. through (fate s.ticks) (redis.release_seat e t u) s;
  join_queue = λ e u s. through (fate s.ticks) (redis.join_queue e u) s;
  queue_position = λ e u s. through (fate s.ticks) (redis.queue_position e u) s;
  leave_queue = λ e u s. through (fate s.ticks) (redis.leave_queue e u) s;
  peek_queue = λ e s. through (fate s.ticks) (redis.peek_queue e) s;
}

abbrev pub orchestrator_over : (ℕ → Fate) → Setting → TicketingOrchestratorService Services
orchestrator_over fate g = record (orchestrator g) {
  redis = unreliable fate (engine_client g.now g.message);
}
