-- ===== src/Tests/Wire.antt =====
-- The wire format: commands and replies with line breaks and characters beyond ASCII.
use krafton_week.Prelude.{
  ℕ, String, ◌≡◌, refl, true, some, List, [], ◌∷◌, ◌++◌, pos, negsuc, take, drop,
}
use krafton_week.Effects.{ok, Exec}
use krafton_week.Text.{utf8, print_int}
use krafton_week.Storage.Seats.{SeatStatus, reserve_seat, seat_status_by_key}
use krafton_week.Dict.{lookup}
use krafton_week.Storage.Seats.Requests.{SeatRequest, reserve_request, perform}
use krafton_week.Errors.{Error}
use krafton_week.Storage.Engine.{Store}
use krafton_week.Server.Connection.{Connection, receive}
use krafton_week.Server.Connection.Order.{serially, commands_answered_in_order}
use krafton_week.Commands.Handler.{
  handle_command, engine_storage, CommandResult, text, integer, null, array,
}
use krafton_week.Protocol.Requests.{parse_resp_frame, feed_data}
use krafton_week.Protocol.Responses.{encode_result_value}
use krafton_week.AppServer.Services.{command_result}
use krafton_week.AppServer.RespClient.{encode_command, parse_resp_reply}
use krafton_week.AppServer.RespClient.Requests.{parse_resp_frame-encode_command}
use krafton_week.AppServer.RespClient.Replies.{result_reply, parse_resp_reply-encode_result_value}
use krafton_week.AppServer.RespClient.Streams.{encode_commands, feed_data-encode_commands}
use krafton_week.AppServer.RespClient.Methods.{redis_client}
use krafton_week.AppServer.RespClient.Calls.{seat_method, over_the_wire, seat_request_arrives}

abbrev set_command : List String
set_command = "SET" ∷ "한 é" ∷ "a\r\nb" ∷ []

abbrev more_bytes : List ℕ
more_bytes = 42 ∷ 49 ∷ []

parse_resp_frame-encode_command_example :
    parse_resp_frame (encode_command set_command more_bytes) ≡ ok (set_command, more_bytes)
parse_resp_frame-encode_command_example = parse_resp_frame-encode_command set_command more_bytes

abbrev commands : List (List String)
commands = ("GET" ∷ "a" ∷ []) ∷ ("DEL" ∷ "b" ∷ []) ∷ []

abbrev bytes : List ℕ
bytes = encode_commands commands []

feed_data-encode_commands_example : feed_data (drop 9 bytes) (take 9 bytes) ≡ (ok commands, [])
unfolding utf8 print_int
feed_data-encode_commands_example =
    feed_data-encode_commands commands (take 9 bytes) (drop 9 bytes) [] refl tt

abbrev result : CommandResult
result = array (integer (negsuc 4) ∷ text "한\r\n" ∷ null ∷ [])

parse_resp_reply-encode_result_value_example :
    parse_resp_reply (utf8 (encode_result_value result) ++ more_bytes)
    ≡ ok (result_reply result, more_bytes)
parse_resp_reply-encode_result_value_example =
    parse_resp_reply-encode_result_value result more_bytes

abbrev execute : List String → Exec Error Store CommandResult
execute = handle_command (engine_storage (pos 0))

-- The text of an exception is not of interest here.
abbrev describe : Error → String × String
describe e = (" no\r\n", "CommandError")

abbrev waiting : Connection Store
waiting = record { buffer = take 9 bytes; storage = []; sent = "+OK" ∷ [] }

commands_answered_in_order_example : receive execute describe (drop 9 bytes) waiting ≡ (
  ok tt,
  record {
    buffer = [];
    storage = (serially execute describe commands []).1;
    sent = waiting.sent ++ (serially execute describe commands []).0;
  },
)
unfolding utf8 print_int
commands_answered_in_order_example =
    commands_answered_in_order execute describe commands (drop 9 bytes) [] waiting refl tt

abbrev held_by_ann : SeatStatus
held_by_ann = record { state = "HELD"; user_id = some "ann"; ttl = pos 30 }

abbrev hold : SeatRequest
hold = reserve_request "show" "A1" "ann" (pos 30)

abbrev after_hold : Store
after_hold = (perform (pos 0) hold []).1

seat_request_arrives_example :
    seat_method (redis_client (over_the_wire (pos 0) describe)) hold []
    ≡ (ok (command_result (true, held_by_ann)), after_hold)
unfolding perform reserve_seat seat_status_by_key lookup
seat_request_arrives_example =
    seat_request_arrives (pos 0) describe [] after_hold true held_by_ann hold refl
