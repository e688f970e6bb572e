-- ===== src/Commands/Handler.antt =====
-- commands/handler.py: validation, the arguments, and the dispatch to the storage engine.
pub mod SeatRequests
use krafton_week.Prelude.{
  ℕ, String, Bool, ◌&&◌, not, Option, none, some, List, [], ◌∷◌, ◌==◌, length, leb, ℤ, pos, leb_ℤ,
  if◌then◌else◌,
}
use krafton_week.Text.{upper, parse_int}
use krafton_week.Effects.{
  Result, ok, err, bind_result, Exec, pure, raise, lift, ◌>>=◌, ◌>>◌, run, modify,
}
use krafton_week.Dict.{lookup}
use krafton_week.Errors.{
  Error, command_error, unknown_command, wrong_number_of_arguments, unpack_error,
}
use krafton_week.Storage.Ttl.{is_expire_option}
use krafton_week.Storage.Engine
use krafton_week.Storage.Engine.{Store}
use krafton_week.Storage.Seats
use krafton_week.Storage.Seats.{SeatStatus}
use krafton_week.Storage.Queues
use krafton_week.Commands.Registry.{supported_commands, command_arity, is_one_of}

-- The storage that the commands are performed on, with its state: what may raise is an `Exec`.
pub record StorageProtocol (S : Type 0) : Type 0 where
  pub set : String → String → S → S
  pub get : String → S → Option String × S
  pub delete : String → S → Bool × S
  pub expire : String → ℤ → Option String → Exec Error S Bool
  pub ttl : String → S → ℤ × S
  pub reserve_seat : String → String → String → ℤ → Exec Error S (Bool × SeatStatus)
  pub confirm_seat : String → String → String → Exec Error S (Bool × SeatStatus)
  pub force_confirm_seat : String → String → String → S → (Bool × SeatStatus) × S
  pub release_seat : String → String → String → Exec Error S (Bool × SeatStatus)
  pub seat_status : String → String → Exec Error S SeatStatus
  pub join_queue : String → String → Exec Error S (Bool × ℕ × ℕ)
  pub queue_position : String → String → Exec Error S (ℤ × ℕ)
  pub pop_queue : String → Exec Error S (Option String × ℕ)
  pub leave_queue : String → String → Exec Error S (Bool × ℤ × ℕ)
  pub peek_queue : String → Exec Error S (Option String × ℕ)

-- `RESPScalar`
pub data Scalar : Type 0 where
  text : String → Scalar
  integer : ℤ → Scalar
  null : Scalar

pub data CommandResult : Type 0 where
  scalar : Scalar → CommandResult
  array : List Scalar → CommandResult

-- The exception for a name, told apart from its message.
abbrev check_arity : String → List String → ℕ → Option (ℕ × ℕ) → Result Error (String × List String)
check_arity name args n none = err unpack_error
check_arity name args n (some (least, most)) =
    if not (leb least n && leb n most)
    then err (wrong_number_of_arguments name)
    else ok (name, args)

validate_command : List String → Result Error (String × List String)
unfolding upper is_one_of lookup
validate_command [] = err (command_error "empty command")
validate_command (token ∷ args) =
    if token == ""
    then err (command_error "empty command")
    else if not (is_one_of (upper token) supported_commands)
    then err (unknown_command (upper token))
    else check_arity (upper token) args (length (token ∷ args)) (lookup (upper token) command_arity)

abbrev expire_option : List String → Result Error (Option String)
expire_option [] = ok none
expire_option (raw ∷ rest) =
    if is_expire_option (upper raw)
    then ok (some (upper raw))
    else err (command_error "unsupported EXPIRE option")

abbrev or_command_error : Option ℤ → String → Result Error ℤ
or_command_error none message = err (command_error message)
or_command_error (some n) message = ok n

parse_expire_arguments : List String → Result Error (String × ℤ × Option String)
unfolding upper parse_int
parse_expire_arguments (key ∷ raw_seconds ∷ rest) =
    bind_result (or_command_error (parse_int raw_seconds) "EXPIRE seconds must be an integer")
      λ seconds. bind_result (expire_option rest) (λ option. ok (key, seconds, option))
parse_expire_arguments _ = err unpack_error

parse_reserve_arguments : List String → Result Error (String × String × String × ℤ)
parse_reserve_arguments (event_id ∷ seat_id ∷ user_id ∷ raw_hold_seconds ∷ []) =
    bind_result
      (or_command_error (parse_int raw_hold_seconds) "RESERVE_SEAT ttl_seconds must be an integer")
      λ hold_seconds.
        if leb_ℤ hold_seconds (pos 0)
        then err (command_error "RESERVE_SEAT ttl_seconds must be a positive integer")
        else ok (event_id, seat_id, user_id, hold_seconds)
parse_reserve_arguments _ = err unpack_error

-- `1 if flag else 0`
abbrev pub flag : Bool → Scalar
flag b = if b then integer (pos 1) else integer (pos 0)

abbrev pub opt_text : Option String → Scalar
opt_text none = null
opt_text (some s) = text s

abbrev pub seat_operation_result : Bool × SeatStatus → CommandResult
seat_operation_result (success, status) =
    array (flag success ∷ text status.state ∷ opt_text status.user_id ∷ integer status.ttl ∷ [])

abbrev pub seat_status_result : SeatStatus → CommandResult
seat_status_result status =
    array (text status.state ∷ opt_text status.user_id ∷ integer status.ttl ∷ [])

abbrev pub queue_join_result : Bool × ℕ × ℕ → CommandResult
queue_join_result (joined, position, queue_length) =
    array (flag joined ∷ integer (pos position) ∷ integer (pos queue_length) ∷ [])

abbrev pub queue_position_result : ℤ × ℕ → CommandResult
queue_position_result (position, queue_length) =
    array (integer position ∷ integer (pos queue_length) ∷ [])

abbrev pub queue_pop_result : Option String × ℕ → CommandResult
queue_pop_result (user_id, queue_length) =
    array (opt_text user_id ∷ integer (pos queue_length) ∷ [])

abbrev pub queue_leave_result : Bool × ℤ × ℕ → CommandResult
queue_leave_result (removed, position, queue_length) =
    array (flag removed ∷ integer position ∷ integer (pos queue_length) ∷ [])

module _ {S : Type 0} (storage : StorageProtocol S) where
  abbrev Action : Type 0
  Action = Exec Error S CommandResult

  abbrev fmap : {A : Type 0} → (A → CommandResult) → Exec Error S A → Action
  fmap f m = do a ← m; pure (f a)

  -- `a, b, c = args`
  abbrev args1 : List String → (String → Action) → Action
  args1 (a ∷ rest) f = f a
  args1 _ f = raise unpack_error

  abbrev args2 : List String → (String → String → Action) → Action
  args2 (a ∷ b ∷ []) f = f a b
  args2 _ f = raise unpack_error

  abbrev args3 : List String → (String → String → String → Action) → Action
  args3 (a ∷ b ∷ c ∷ []) f = f a b c
  args3 _ f = raise unpack_error

  plain_command : String → List String → Action → Action
  plain_command name args otherwise =
      if name == "SET"
      then (args2 args λ key value. do modify (storage.set key value); pure (scalar (text "OK")))
      else if name == "GET"
      then (args1 args λ key. fmap (λ v. scalar (opt_text v)) (run (storage.get key)))
      else if name == "DEL"
      then (args1 args λ key. fmap (λ b. scalar (flag b)) (run (storage.delete key)))
      else if name == "EXPIRE"
      then (do
        (key, seconds, option) ← lift (parse_expire_arguments args)
        fmap (λ b. scalar (flag b)) (storage.expire key seconds option))
      else if name == "TTL"
      then (args1 args λ key. fmap (λ n. scalar (integer n)) (run (storage.ttl key)))
      else otherwise

  seat_command : String → List String → Action → Action
  seat_command name args otherwise =
      if name == "RESERVE_SEAT"
      then (do
        (event_id, seat_id, user_id, hold_seconds) ← lift (parse_reserve_arguments args)
        fmap seat_operation_result (storage.reserve_seat event_id seat_id user_id hold_seconds))
      else if name == "CONFIRM_SEAT"
      then (args3 args λ event_id seat_id user_id.
          fmap seat_operation_result (storage.confirm_seat event_id seat_id user_id))
      else if name == "FORCE_CONFIRM_SEAT"
      then (args3 args λ event_id seat_id user_id.
          fmap seat_operation_result (run (storage.force_confirm_seat event_id seat_id user_id)))
      else if name == "RELEASE_SEAT"
      then (args3 args λ event_id seat_id user_id.
          fmap seat_operation_result (storage.release_seat event_id seat_id user_id))
      else if name == "SEAT_STATUS"
      then (args2 args
          λ event_id seat_id. fmap seat_status_result (storage.seat_status event_id seat_id))
      else otherwise

  queue_command : String → List String → Action → Action
  queue_command name args otherwise =
      if name == "JOIN_QUEUE"
      then (args2 args
          λ event_id user_id. fmap queue_join_result (storage.join_queue event_id user_id))
      else if name == "QUEUE_POSITION"
      then (args2 args
          λ event_id user_id. fmap queue_position_result (storage.queue_position event_id user_id))
      else if name == "POP_QUEUE"
      then (args1 args λ event_id. fmap queue_pop_result (storage.pop_queue event_id))
      else if name == "LEAVE_QUEUE"
      then (args2 args
          λ event_id user_id. fmap queue_leave_result (storage.leave_queue event_id user_id))
      else if name == "PEEK_QUEUE"
      then (args1 args λ event_id. fmap queue_pop_result (storage.peek_queue event_id))
      else otherwise

  abbrev pub handle_command : List String → Action
  unfolding validate_command parse_expire_arguments parse_reserve_arguments plain_command
      seat_command queue_command
  handle_command command = do
    (name, args) ← lift (validate_command command)
    plain_command name args
        (seat_command name args (queue_command name args (raise (unknown_command name))))

-- The engine at the moment `now`.
abbrev pub engine_storage : ℤ → StorageProtocol Store
engine_storage now = record {
  set = Engine.set;
  get = Engine.get now;
  delete = Engine.delete now;
  expire = Engine.expire now;
  ttl = Engine.ttl now;
  reserve_seat = Seats.reserve_seat now;
  confirm_seat = Seats.confirm_seat now;
  force_confirm_seat = Seats.force_confirm_seat;
  release_seat = Seats.release_seat now;
  seat_status = Seats.seat_status now;
  join_queue = Queues.join_queue;
  queue_position = Queues.queue_position;
  pop_queue = Queues.pop_queue;
  leave_queue = Queues.leave_queue;
  peek_queue = Queues.peek_queue;
}
