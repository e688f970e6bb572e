-- ===== src/Server/Connection.antt =====
-- server/server.py: the loop of a connection. `execute` is the executor's, with the storage behind it,
-- and `describe` tells `str(exc)` and the name of the class of an exception that it may raise.
pub mod Order
use Prim.Native.Char.{Char, code}
use Prim.Native.String.{[] as nil, ◌∷◌ as ◌◁◌, ◌++◌ as ◌<>◌}
use krafton_week.Prelude.{
  ℕ, zero, suc, String, Bool, true, false, ◌||◌, List, [], ◌∷◌, ◌++◌, length, eqb, ◌==◌,
  if◌then◌else◌,
}
use krafton_week.Effects.{Result, ok, err, Exec}
use krafton_week.Text.{strip}
use krafton_week.Commands.Handler.{CommandResult}
use krafton_week.Protocol.Requests.{
  RespError, protocol_error, incomplete_resp, Parsed, parse_resp_frame,
}
use krafton_week.Protocol.Responses.{
  EncodeError, value_error, type_error, encode_error, encode_command_result,
}

-- `replace("\r", " ").replace("\n", " ")`
unfoldable pub replace_breaks : String → String
replace_breaks nil = nil
replace_breaks (c ◁ s) = (if eqb (code c) 13 || eqb (code c) 10 then " " else c) ◁ replace_breaks s

abbrev pub or_name : String → String → String
or_name message name = if message == "" then name else message

unfoldable pub format_error_message : String → String → String
unfolding replace_breaks
format_error_message message name = replace_breaks (or_name (strip message) name)

abbrev pub error_response : String × String → Result EncodeError String
error_response (message, name) = encode_error (format_error_message message name)

abbrev pub describe_encode_error : EncodeError → String × String
describe_encode_error (value_error message) = (message, "ValueError")
describe_encode_error (type_error message) = (message, "TypeError")

-- The bytes that have not been used, the storage, and the responses that have been handed to the
-- socket.
pub record Connection (S : Type 0) : Type 0 where
  pub buffer : List ℕ
  pub storage : S
  pub sent : List String

-- `send_response`, and what goes on; an exception of the encoding goes on, too.
abbrev pub send_then :
    {S : Type 0}
    → Result EncodeError String
    → Connection S
    → Exec EncodeError (Connection S) (Unit {0})
    → Result EncodeError (Unit {0}) × Connection S
send_then (ok response) c next = next (record c { sent = c.sent ++ response ∷ [] })
send_then (err e) c next = (err e, c)

module _ {E S : Type 0} (execute : List String → Exec E S CommandResult)
    (describe : E → String × String) where
  abbrev pub or_error : Result EncodeError String → Result EncodeError String
  or_error (ok response) = ok response
  or_error (err e) = error_response (describe_encode_error e)

  -- The response to a command, from the outcome of its execution.
  abbrev pub response_to : List String → Result E CommandResult → Result EncodeError String
  response_to command (ok result) = or_error (encode_command_result command result)
  response_to command (err e) = error_response (describe e)

  abbrev pub after_request :
      Parsed (List String)
      → Exec EncodeError (Connection S) (Unit {0})
      → Exec EncodeError (Connection S) (Unit {0})
  after_request (err (incomplete_resp message)) loop c = (ok tt, c)
  after_request (err (protocol_error message)) loop c =
      send_then (error_response (message, "ProtocolError")) c
        (λ c. (ok tt, record c { buffer = [] }))
  after_request (ok (command, rest)) loop c =
      let (r, storage) = execute command c.storage in
      send_then (response_to command r) (record c { storage = storage })
        (λ c. loop (record c { buffer = rest }))

  -- The loop over a buffer; each round takes one of the fuel, and a byte of the buffer at least.
  unfoldable pub serve_buffer : ℕ → Exec EncodeError (Connection S) (Unit {0})
  serve_buffer zero c = (ok tt, c)
  serve_buffer (suc f) c = elim c.buffer [
    | [] ↦ (ok tt, c)
    | b ∷ bs ↦ after_request (parse_resp_frame (b ∷ bs)) (serve_buffer f) c
  ]

  unfoldable pub receive : List ℕ → Exec EncodeError (Connection S) (Unit {0})
  unfolding serve_buffer
  receive chunk c =
      let buffer = c.buffer ++ chunk in serve_buffer (length buffer) (record c { buffer = buffer })

  -- The chunks that the socket gives until it is closed, which an empty one says, too.
  abbrev pub next_chunk :
      Result EncodeError (Unit {0}) × Connection S
      → Exec EncodeError (Connection S) (Unit {0})
      → Result EncodeError (Unit {0}) × Connection S
  next_chunk (ok done, c) more = more c
  next_chunk (err e, c) more = (err e, c)

  unfoldable pub handle_client : List (List ℕ) → Exec EncodeError (Connection S) (Unit {0})
  unfolding receive
  handle_client [] c = (ok tt, c)
  handle_client ([] ∷ chunks) c = (ok tt, c)
  handle_client ((b ∷ bs) ∷ chunks) c = next_chunk (receive (b ∷ bs) c) (handle_client chunks)
