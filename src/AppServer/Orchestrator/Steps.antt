-- ===== src/AppServer/Orchestrator/Steps.antt =====
-- app_server/service.py: the steps that a reservation's requests share. `seat_trace` is a trace of
-- one seat's request.
use Prim.Native.String.{◌++◌}
use krafton_week.Prelude.{
  ℕ, zero, suc, String, Bool, true, false, ◌&&◌, Option, none, some, ◌==◌, opt_eq, ℤ,
}
use krafton_week.Effects.{Result, ok, err, pure, raise, on_exception, handle, ◌>>=◌, ◌>>◌}
use krafton_week.Storage.Seats.{SeatStatus, seat_held, seat_confirmed, is_seat_of}
use krafton_week.Ticketing.Schema.{CancelReservationRequest}
use krafton_week.AppServer.Clients.{AppServerError, upstream, SeatCommandResult}
use krafton_week.AppServer.Orchestrator.{TicketingOrchestratorService, Action, call, draw, trace}

-- The reply of `_build_mock_payment`, whose status is `SUCCEEDED`.
pub record MockPayment : Type 0 where
  pub payment_id : String
  pub status : String
  pub amount : ℤ
  pub provider : String
  pub provider_ref : String

abbrev mock_payment_provider : String
mock_payment_provider = "mock-pay"

abbrev pub redis_confirm_retry_attempts : ℕ
redis_confirm_retry_attempts = 3

abbrev pub mock_payment : ℤ → String → MockPayment
mock_payment amount hex = record {
  payment_id = "pay-" ++ hex;
  status = "SUCCEEDED";
  amount = amount;
  provider = mock_payment_provider;
  provider_ref = "pay-" ++ hex;
}

-- The empty body of a cancellation.
abbrev pub no_payment : CancelReservationRequest
no_payment = record {
  payment_id = none;
  payment_status = none;
  amount = none;
  provider = none;
  provider_ref = none;
}

abbrev pub is_confirmed_for : SeatCommandResult → String → Bool
is_confirmed_for result user_id =
    result.state == seat_confirmed && opt_eq result.user_id (some user_id)

abbrev pub unexpected_state : AppServerError
unexpected_state =
    upstream "Redis returned an unexpected seat state during confirmation finalization"

abbrev last_error_or : Option AppServerError → AppServerError
last_error_or none = upstream "Redis did not finalize the confirmed seat"
last_error_or (some e) = e

module _ {S : Type 0} (self : TicketingOrchestratorService S) where
  unfoldable pub build_mock_payment : ℤ → Action S MockPayment
  build_mock_payment amount = do
    hex ← draw (λ n. ok (self.uuid_hex n))
    pure (mock_payment amount hex)

  abbrev pub seat_trace :
      String → String → String → String → String → String → Option String → Action S (Unit {0})
  seat_trace target action status event_id seat_id user_id =
      trace self "APP" target action status (some event_id) (some seat_id) (some user_id)

  abbrev pub release_held : Bool → SeatStatus → String → String → String → Action S (Unit {0})
  release_held true status event_id seat_id user_id = do
    released ← call (self.redis.release_seat event_id seat_id user_id)
    seat_trace "REDIS" "RELEASE_SEAT" "SUCCESS" event_id seat_id user_id none
  release_held false status event_id seat_id user_id =
      seat_trace "REDIS" "RELEASE_SEAT" "SKIP" event_id seat_id user_id
        (some ("state=" ++ status.state))

  abbrev try_release : String → String → String → Action S (Unit {0})
  try_release event_id seat_id user_id = do
    seat_trace "REDIS" "RELEASE_SEAT" "START" event_id seat_id user_id none
    status ← call (self.redis.seat_status event_id seat_id)
    release_held (is_seat_of status seat_held user_id) status event_id seat_id user_id

  unfoldable pub safe_release : String → String → String → Action S (Unit {0})
  safe_release event_id seat_id user_id =
      on_exception (try_release event_id seat_id user_id)
        (λ e. seat_trace "REDIS" "RELEASE_SEAT" "FAIL" event_id seat_id user_id none)

  abbrev expire_trace : String → String → Action S (Unit {0})
  expire_trace status reservation_id =
      trace self "APP" "DB" "EXPIRE_RESERVATION" status none none none (some reservation_id)

  abbrev try_expire : String → Action S (Unit {0})
  try_expire reservation_id = do
    expire_trace "START" reservation_id
    row ← call (self.db.expire_reservation reservation_id)
    expire_trace "SUCCESS" reservation_id

  unfoldable pub safe_expire : String → Action S (Unit {0})
  safe_expire reservation_id =
      on_exception (try_expire reservation_id) (λ e. expire_trace "FAIL" reservation_id)

  abbrev try_cancel : String → Action S (Unit {0})
  try_cancel reservation_id = do
    row ← call (self.db.cancel_reservation reservation_id no_payment)
    pure tt

  unfoldable pub safe_cancel : String → String → String → String → Action S (Unit {0})
  safe_cancel reservation_id event_id seat_id user_id = do
    on_exception (try_cancel reservation_id) (λ e. pure tt)
    safe_release event_id seat_id user_id

  -- One attempt, and what is done with its reply: an `UpstreamError` and another state are followed
  -- by a retry, any other exception goes on.
  abbrev pub attempt_confirm : String → String → String → Action S SeatCommandResult
  attempt_confirm event_id seat_id user_id = do
    seat_trace "REDIS" "FORCE_CONFIRM_SEAT" "START" event_id seat_id user_id none
    call (self.redis.force_confirm_seat event_id seat_id user_id)

  abbrev pub check_confirmed :
      Bool
      → SeatCommandResult
      → String
      → String
      → String
      → (AppServerError → Action S SeatCommandResult)
      → Action S SeatCommandResult
  check_confirmed true result event_id seat_id user_id retry = do
    seat_trace "REDIS" "FORCE_CONFIRM_SEAT" "SUCCESS" event_id seat_id user_id none
    pure result
  check_confirmed false result event_id seat_id user_id retry = do
    seat_trace "REDIS" "FORCE_CONFIRM_SEAT" "FAIL" event_id seat_id user_id
        (some ("state=" ++ result.state))
    retry unexpected_state

  abbrev pub after_attempt :
      Result AppServerError SeatCommandResult
      → String
      → String
      → String
      → (AppServerError → Action S SeatCommandResult)
      → Action S SeatCommandResult
  after_attempt (ok result) event_id seat_id user_id retry =
      check_confirmed (is_confirmed_for result user_id) result event_id seat_id user_id retry
  after_attempt (err (upstream message)) event_id seat_id user_id retry = do
    seat_trace "REDIS" "FORCE_CONFIRM_SEAT" "FAIL" event_id seat_id user_id (some message)
    retry (upstream message)
  after_attempt (err e) event_id seat_id user_id retry = raise e

  unfoldable pub finalize_attempts :
      ℕ → Option AppServerError → String → String → String → Action S SeatCommandResult
  finalize_attempts zero last_error event_id seat_id user_id = raise (last_error_or last_error)
  finalize_attempts (suc n) last_error event_id seat_id user_id =
      handle (attempt_confirm event_id seat_id user_id) (λ r.
        after_attempt r event_id seat_id user_id
          (λ e. finalize_attempts n (some e) event_id seat_id user_id))

  unfoldable pub finalize_confirmed_seat : String → String → String → Action S SeatCommandResult
  finalize_confirmed_seat event_id seat_id user_id =
      finalize_attempts redis_confirm_retry_attempts none event_id seat_id user_id
