-- ===== src/AppServer/Clients.antt =====
-- app_server/exceptions.py, and the two services that the orchestrator calls: the protocols of
-- app_server/service.py, with the dataclasses of app_server/redis_client.py. `S` is the state of both
-- services. What the database service sends as JSON objects are its rows.
use krafton_week.Prelude.{String, Bool, Option, List, ℤ}
use krafton_week.Effects.{Exec}
use krafton_week.Storage.Seats.{SeatStatus}
use krafton_week.Ticketing.Schema.{
  Event, HeldReservationCreate, ConfirmReservationRequest, CancelReservationRequest, ReservationRow,
}
use krafton_week.Ticketing.Repository.{SeatRow}

-- `AppServerError` and its subclasses, with their messages, and any other exception.
pub data AppServerError : Type 0 where
  not_found conflict upstream : String → AppServerError
  other_exception : String → AppServerError

pub record SeatCommandResult : Type 0 where
  pub success : Bool
  pub state : String
  pub user_id : Option String
  pub ttl : ℤ

pub record QueueJoinResult : Type 0 where
  pub joined : Bool
  pub position : ℤ
  pub queue_length : ℤ

pub record QueuePositionResult : Type 0 where
  pub position : ℤ
  pub queue_length : ℤ

pub record QueueFrontResult : Type 0 where
  pub user_id : Option String
  pub queue_length : ℤ

pub record QueueLeaveResult : Type 0 where
  pub removed : Bool
  pub previous_position : ℤ
  pub queue_length : ℤ

pub record RedisClientProtocol (S : Type 0) : Type 0 where
  pub seat_status : String → String → Exec AppServerError S SeatStatus
  pub reserve_seat : String → String → String → ℤ → Exec AppServerError S SeatCommandResult
  pub confirm_seat : String → String → String → Exec AppServerError S SeatCommandResult
  pub force_confirm_seat : String → String → String → Exec AppServerError S SeatCommandResult
  pub release_seat : String → String → String → Exec AppServerError S SeatCommandResult
  pub join_queue : String → String → Exec AppServerError S QueueJoinResult
  pub queue_position : String → String → Exec AppServerError S QueuePositionResult
  pub leave_queue : String → String → Exec AppServerError S QueueLeaveResult
  pub peek_queue : String → Exec AppServerError S QueueFrontResult

pub record DbClientProtocol (S : Type 0) : Type 0 where
  pub list_events : Exec AppServerError S (List Event)
  pub list_event_seats : String → Exec AppServerError S (List SeatRow)
  pub create_held_reservation :
      HeldReservationCreate → Exec AppServerError S (ReservationRow × Bool)
  pub confirm_reservation :
      String → ConfirmReservationRequest → Exec AppServerError S ReservationRow
  pub cancel_reservation : String → CancelReservationRequest → Exec AppServerError S ReservationRow
  pub expire_reservation : String → Exec AppServerError S ReservationRow
  pub list_user_reservations : String → Exec AppServerError S (List ReservationRow)
