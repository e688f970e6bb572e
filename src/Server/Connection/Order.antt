-- ===== src/Server/Connection/Order.antt =====
-- server/server.py: commands on a connection are performed one after the other, and each is answered.
use Prim.Native.Char.{code}
use Prim.Native.String.{[] as nil, ◌∷◌ as ◌◁◌, ◌++◌ as ◌<>◌}
use mathlib.Core.List.{append_assoc, append-nil}
use krafton_week.Prelude.{
  ℕ, zero, suc, ◌≤◌, String, ◌≡◌, refl, sym, ◌∙◌, ap, false, ◌||◌, Bool-cases, inl, inr, List, [],
  ◌∷◌, ◌++◌, length, eqb, arith,
}
use krafton_week.Effects.{Result, ok, err, Exec}
use krafton_week.Commands.Handler.{CommandResult}
use krafton_week.Protocol.Requests.{Parsed, parse_resp_frame}
use krafton_week.Protocol.Responses.{
  EncodeError, has_line_break, encode_error, encode_command_result,
}
use krafton_week.AppServer.RespClient.{encode_command}
use krafton_week.AppServer.RespClient.Requests.{parse_resp_frame-encode_command}
use krafton_week.AppServer.RespClient.Streams.{encode_commands, IsIncomplete, length-encode_command}
use krafton_week.Server.Connection.{
  Connection, replace_breaks, format_error_message, error_response, describe_encode_error, or_error,
  response_to, send_then, after_request, serve_buffer, receive,
}

has_line_break-replace_breaks : (s : String) → has_line_break (replace_breaks s) ≡ false
unfolding has_line_break replace_breaks
has_line_break-replace_breaks nil = refl
has_line_break-replace_breaks (c ◁ s) = elim (Bool-cases (eqb (code c) 13 || eqb (code c) 10)) [
  | inl e ↦ rw e (has_line_break-replace_breaks s)
  | inr e ↦ rw (e, e) (has_line_break-replace_breaks s)
]

-- The response that tells an exception.
abbrev pub error_text : String × String → String
error_text (message, name) = "-ERR " <> (format_error_message message name <> "\r\n")

error_response-error_text : (x : String × String) → error_response x ≡ ok (error_text x)
unfolding encode_error format_error_message
error_response-error_text (message, name) = rw (has_line_break-replace_breaks _) refl

module _ {E S : Type 0} (execute : List String → Exec E S CommandResult)
    (describe : E → String × String) where
  abbrev pub or_text : Result EncodeError String → String
  or_text (ok response) = response
  or_text (err e) = error_text (describe_encode_error e)

  abbrev pub answer : List String → Result E CommandResult → String
  answer command (ok result) = or_text (encode_command_result command result)
  answer command (err e) = error_text (describe e)

  or_error-or_text : (r : Result EncodeError String) → or_error execute describe r ≡ ok (or_text r)
  or_error-or_text (ok response) = refl
  or_error-or_text (err e) = error_response-error_text (describe_encode_error e)

  response_to-answer :
      (command : List String) (r : Result E CommandResult)
      → response_to execute describe command r ≡ ok (answer command r)
  response_to-answer command (ok result) = or_error-or_text (encode_command_result command result)
  response_to-answer command (err e) = error_response-error_text (describe e)

  -- The commands executed one after the other, with an answer to each.
  abbrev pub serially : List (List String) → S → List String × S
  serially [] s = ([], s)
  serially (command ∷ commands) s =
      let (r, s') = execute command s in
      let (answers, s'') = serially commands s' in (answer command r ∷ answers, s'')

  abbrev connection : List ℕ → S → List String → Connection S
  connection buffer storage sent = record { buffer = buffer; storage = storage; sent = sent }

  abbrev served : Connection S → Result EncodeError (Unit {0}) × Connection S
  served c = (ok tt, c)

  serve_buffer-frame :
      (f : ℕ) (message rest : List ℕ) (s : S) (sent : List String) (command : List String)
      → parse_resp_frame message ≡ ok (command, rest)
      → let (r, s') = execute command s in
        serve_buffer execute describe (suc f) (connection message s sent)
        ≡ serve_buffer execute describe f (connection rest s' (sent ++ answer command r ∷ []))
  unfolding serve_buffer
  serve_buffer-frame f [] rest s sent command h = absurd (unfold parse_resp_frame in cc)
  serve_buffer-frame f (b ∷ bs) rest s sent command h =
      let loop = serve_buffer execute describe f in
      let (r, s') = execute command s in
      ap
        (λ (x : Parsed (List String)).
          after_request execute describe x loop (connection (b ∷ bs) s sent))
        h
      ∙ ap
          (λ (x : Result EncodeError String).
            send_then x (connection (b ∷ bs) s' sent) (λ c. loop (record c { buffer = rest })))
          (response_to-answer command r)

  serve_buffer-IsIncomplete :
      (f : ℕ) (rest : List ℕ) (s : S) (sent : List String)
      → IsIncomplete rest
      → serve_buffer execute describe f (connection rest s sent) ≡ (ok tt, connection rest s sent)
  unfolding serve_buffer
  serve_buffer-IsIncomplete zero rest s sent h = refl
  serve_buffer-IsIncomplete (suc f) [] s sent h = refl
  serve_buffer-IsIncomplete (suc f) (b ∷ bs) s sent (message, h) =
      ap
        (λ (x : Parsed (List String)).
          after_request execute describe x (serve_buffer execute describe f)
            (connection (b ∷ bs) s sent))
        h

  serve_buffer-encode_commands :
      (f : ℕ) (commands : List (List String)) (rest : List ℕ) (s : S) (sent : List String)
      → length (encode_commands commands rest) ≤ f
      → IsIncomplete rest
      → let (answers, s') = serially commands s in
        serve_buffer execute describe f (connection (encode_commands commands rest) s sent)
        ≡ (ok tt, connection rest s' (sent ++ answers))
  serve_buffer-encode_commands f [] rest s sent enough h =
      serve_buffer-IsIncomplete f rest s sent h
      ∙ ap (λ (out : List String). served (connection rest s out)) (sym (append-nil sent))
  serve_buffer-encode_commands zero (command ∷ commands) rest s sent enough h =
      let more = encode_commands commands rest in
      absurd (omega (arith, enough, length-encode_command command more))
  serve_buffer-encode_commands (suc f) (command ∷ commands) rest s sent enough h =
      let more = encode_commands commands rest in
      let (r, s₁) = execute command s in
      let (answers, s') = serially commands s₁ in
      serve_buffer-frame f (encode_command command more) more s sent command
        (parse_resp_frame-encode_command command more)
      ∙ serve_buffer-encode_commands f commands rest s₁ (sent ++ answer command r ∷ [])
          (omega (arith, enough, length-encode_command command more)) h
      ∙ ap (λ (out : List String). served (connection rest s' out))
          (append_assoc sent (answer command r ∷ []) answers)

  -- However the bytes of some commands and of the start of a next one have been cut into what a
  -- connection has buffered and a chunk: on the chunk the commands are executed one after the other,
  -- in their order, each is answered once, with its result or its exception, and the rest is kept.
  pub commands_answered_in_order :
      (commands : List (List String)) (chunk rest : List ℕ) (c : Connection S)
      → c.buffer ++ chunk ≡ encode_commands commands rest
      → IsIncomplete rest
      → let (answers, storage) = serially commands c.storage in
        receive execute describe chunk c
        ≡ (ok tt, record { buffer = rest; storage = storage; sent = c.sent ++ answers })
  unfolding receive
  commands_answered_in_order commands chunk rest c is h =
      ap
        (λ (bytes : List ℕ).
          serve_buffer execute describe (length bytes) (connection bytes c.storage c.sent))
        is
      ∙ serve_buffer-encode_commands (length (encode_commands commands rest)) commands rest
          c.storage c.sent (omega arith) h
