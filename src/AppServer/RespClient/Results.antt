-- ===== src/AppServer/RespClient/Results.antt =====
-- A seat command's result, from the engine through the server's encoding to the client's decoding.
use krafton_week.Prelude.{
  ℕ, String, ◌≡◌, refl, sym, ◌∙◌, ap, Bool, true, false, Option, none, some, List, [], ◌∷◌, ℤ,
}
use mathlib.Core.List.{append-nil}
use krafton_week.Effects.{ok}
use krafton_week.Text.{utf8}
use krafton_week.Storage.Seats.{SeatStatus}
use krafton_week.Commands.Handler.{CommandResult, seat_operation_result}
use krafton_week.Protocol.Responses.{encode_result_value}
use krafton_week.AppServer.Services.{command_result}
use krafton_week.AppServer.RespClient.{RespReply, Read, parse_resp_reply}
use krafton_week.AppServer.RespClient.Replies.{result_reply, parse_resp_reply-encode_result_value}
use krafton_week.AppServer.RespClient.Methods.{after_parse, read_reply, decode_seat_command}

read_reply-whole :
    (message : List ℕ) (value : RespReply)
    → parse_resp_reply message ≡ ok (value, [])
    → read_reply [] (message ∷ []) ≡ ok value
unfolding read_reply
read_reply-whole [] value h = absurd (unfold parse_resp_reply in cc)
read_reply-whole (b ∷ bs) value h =
    ap (λ (x : Read RespReply). after_parse x (read_reply (b ∷ bs) [])) h

-- The reply to a result's bytes, in one chunk.
pub read_reply-encode_result_value :
    (result : CommandResult)
    → read_reply [] (utf8 (encode_result_value result) ∷ []) ≡ ok (result_reply result)
read_reply-encode_result_value result =
    read_reply-whole (utf8 (encode_result_value result)) (result_reply result) (
      ap parse_resp_reply (sym (append-nil (utf8 (encode_result_value result))))
      ∙ parse_resp_reply-encode_result_value result [])

abbrev status_of : String → Option String → ℤ → SeatStatus
status_of state user_id ttl = record { state = state; user_id = user_id; ttl = ttl }

pub decode-command :
    (success : Bool) (state : String) (user_id : Option String) (ttl : ℤ)
    → let status = status_of state user_id ttl in
      decode_seat_command (result_reply (seat_operation_result (success, status)))
      ≡ ok (command_result (success, status))
decode-command true state none ttl = refl
decode-command true state (some u) ttl = refl
decode-command false state none ttl = refl
decode-command false state (some u) ttl = refl
