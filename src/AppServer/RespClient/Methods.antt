-- ===== src/AppServer/RespClient/Methods.antt =====
-- app_server/redis_client.py: the reading of a reply from a socket, and the methods of
-- RedisRESPClient. `execute` sends the tokens and reads the reply.
use Prim.Native.String.{◌++◌ as ◌<>◌}
use krafton_week.Prelude.{
  ℕ, String, Bool, true, Option, none, some, List, [], ◌∷◌, ◌++◌, ℤ, pos, negsuc, not, eqb,
}
use krafton_week.Effects.{Result, ok, err, bind_result, Exec, lift, ◌>>=◌}
use krafton_week.Text.{print_int}
use krafton_week.Storage.Seats.{SeatStatus}
use krafton_week.AppServer.Clients.{
  AppServerError, conflict, upstream, SeatCommandResult, QueueJoinResult, QueuePositionResult,
  QueueFrontResult, QueueLeaveResult, RedisClientProtocol,
}
use krafton_week.AppServer.RespClient.{
  RespReply, string_reply, integer_reply, null_reply, array_reply, no_reply, next_reply, ReplyError,
  reply_error, incomplete_reply, error_reply, unicode_decode_error, Read, parse_resp_reply,
}

-- The exceptions of `execute`, from those of the parser.
abbrev execute_error : ReplyError → AppServerError
execute_error (error_reply message) = conflict message
execute_error unicode_decode_error = upstream "Redis returned non-UTF8 data"
execute_error (reply_error message) = upstream ("Invalid Redis reply: " <> message)
execute_error (incomplete_reply message) = upstream ("Invalid Redis reply: " <> message)

-- A parsed buffer: the reply, or another chunk is waited for.
abbrev pub after_parse :
    Read RespReply → Result AppServerError RespReply → Result AppServerError RespReply
after_parse (ok (value, [])) more = ok value
after_parse (ok (value, b ∷ bs)) more =
    err (upstream "Redis reply contained unexpected trailing data")
after_parse (err (incomplete_reply message)) more = more
after_parse (err e) more = err (execute_error e)

abbrev closed : AppServerError
closed = upstream "Redis closed the connection before replying"

-- The chunks that the socket gives; an empty one, or none, says that it is closed.
unfoldable pub read_reply : List ℕ → List (List ℕ) → Result AppServerError RespReply
unfolding parse_resp_reply
read_reply buffer [] = err closed
read_reply buffer ([] ∷ chunks) = err closed
read_reply buffer ((b ∷ bs) ∷ chunks) =
    after_parse (parse_resp_reply (buffer ++ b ∷ bs)) (read_reply (buffer ++ b ∷ bs) chunks)

abbrev expect_string : RespReply → String → Result AppServerError String
expect_string (string_reply s) label = ok s
expect_string value label = err (upstream ("Redis " <> (label <> " must be a string")))

abbrev expect_optional_string : RespReply → String → Result AppServerError (Option String)
expect_optional_string null_reply label = ok none
expect_optional_string (string_reply s) label = ok (some s)
expect_optional_string value label =
    err (upstream ("Redis " <> (label <> " must be a string or null")))

abbrev expect_int : RespReply → String → Result AppServerError ℤ
expect_int (integer_reply n) label = ok n
expect_int value label = err (upstream ("Redis " <> (label <> " must be an integer")))

-- `bool` of an integer
abbrev truth : ℤ → Bool
truth (pos n) = not (eqb n 0)
truth (negsuc n) = true

abbrev wrong_length : String → AppServerError
wrong_length n = upstream ("Redis array reply must contain " <> (n <> " items"))

-- `_expect_array`, for the arrays of two, three and four items.
abbrev expect_two : RespReply → Result AppServerError (RespReply × RespReply)
expect_two (array_reply (next_reply a (next_reply b no_reply))) = ok (a, b)
expect_two (array_reply values) = err (wrong_length "2")
expect_two value = err (upstream "Redis reply must be an array")

abbrev expect_three : RespReply → Result AppServerError (RespReply × RespReply × RespReply)
expect_three (array_reply (next_reply a (next_reply b (next_reply c no_reply)))) = ok (a, b, c)
expect_three (array_reply values) = err (wrong_length "3")
expect_three value = err (upstream "Redis reply must be an array")

abbrev expect_four :
    RespReply → Result AppServerError (RespReply × RespReply × RespReply × RespReply)
expect_four (array_reply (next_reply a (next_reply b (next_reply c (next_reply d no_reply))))) =
    ok (a, b, c, d)
expect_four (array_reply values) = err (wrong_length "4")
expect_four value = err (upstream "Redis reply must be an array")

abbrev pub decode_seat_status : RespReply → Result AppServerError SeatStatus
decode_seat_status reply = bind_result (expect_three reply) (λ (a, b, c).
    bind_result (expect_string a "seat state") (λ state.
      bind_result (expect_optional_string b "seat user_id") (λ user_id.
        bind_result (expect_int c "seat ttl")
          (λ ttl. ok (record { state = state; user_id = user_id; ttl = ttl })))))

abbrev pub decode_seat_command : RespReply → Result AppServerError SeatCommandResult
decode_seat_command reply = bind_result (expect_four reply) (λ (a, b, c, d).
    bind_result (expect_int a "seat success flag") (λ success.
      bind_result (expect_string b "seat state") (λ state.
        bind_result (expect_optional_string c "seat user_id") (λ user_id.
          bind_result (expect_int d "seat ttl") (λ ttl.
            ok
              (record { success = truth success; state = state; user_id = user_id; ttl = ttl }))))))

abbrev decode_join : RespReply → Result AppServerError QueueJoinResult
decode_join reply = bind_result (expect_three reply) (λ (a, b, c).
    bind_result (expect_int a "joined flag") (λ joined.
      bind_result (expect_int b "queue position") (λ position.
        bind_result (expect_int c "queue length")
          (λ n. ok (record { joined = truth joined; position = position; queue_length = n })))))

abbrev decode_position : RespReply → Result AppServerError QueuePositionResult
decode_position reply = bind_result (expect_two reply) (λ (a, b).
    bind_result (expect_int a "queue position") (λ position.
      bind_result (expect_int b "queue length")
        (λ n. ok (record { position = position; queue_length = n }))))

abbrev decode_leave : RespReply → Result AppServerError QueueLeaveResult
decode_leave reply = bind_result (expect_three reply) (λ (a, b, c).
    bind_result (expect_int a "removed flag") (λ removed.
      bind_result (expect_int b "previous position") (λ position.
        bind_result (expect_int c "queue length") (λ n.
          ok
            (record { removed = truth removed; previous_position = position; queue_length = n })))))

abbrev decode_front : RespReply → Result AppServerError QueueFrontResult
decode_front reply = bind_result (expect_two reply) (λ (a, b).
    bind_result (expect_optional_string a "queue user_id") (λ user_id.
      bind_result (expect_int b "queue length")
        (λ n. ok (record { user_id = user_id; queue_length = n }))))

module _ {S : Type 0} (execute : List String → Exec AppServerError S RespReply) where
  abbrev ask :
      {A : Type 0} → List String → (RespReply → Result AppServerError A) → Exec AppServerError S A
  ask tokens decode = do reply ← execute tokens; lift (decode reply)

  unfoldable pub redis_client : RedisClientProtocol S
  unfolding print_int
  redis_client = record {
    seat_status = λ e t. ask ("SEAT_STATUS" ∷ e ∷ t ∷ []) decode_seat_status;
    reserve_seat =
        λ e t u secs. ask ("RESERVE_SEAT" ∷ e ∷ t ∷ u ∷ print_int secs ∷ []) decode_seat_command;
    confirm_seat = λ e t u. ask ("CONFIRM_SEAT" ∷ e ∷ t ∷ u ∷ []) decode_seat_command;
    force_confirm_seat = λ e t u. ask ("FORCE_CONFIRM_SEAT" ∷ e ∷ t ∷ u ∷ []) decode_seat_command;
    release_seat = λ e t u. ask ("RELEASE_SEAT" ∷ e ∷ t ∷ u ∷ []) decode_seat_command;
    join_queue = λ e u. ask ("JOIN_QUEUE" ∷ e ∷ u ∷ []) decode_join;
    queue_position = λ e u. ask ("QUEUE_POSITION" ∷ e ∷ u ∷ []) decode_position;
    leave_queue = λ e u. ask ("LEAVE_QUEUE" ∷ e ∷ u ∷ []) decode_leave;
    peek_queue = λ e. ask ("PEEK_QUEUE" ∷ e ∷ []) decode_front;
  }
