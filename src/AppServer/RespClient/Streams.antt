-- ===== src/AppServer/RespClient/Streams.antt =====
-- Commands that arrive at the stream parser of protocol/resp_parser.py in any pieces.
use krafton_week.Prelude.{
  ℕ, zero, suc, ◌<◌, ◌≤◌, String, ◌≡◌, refl, ◌∙◌, ap, List, [], ◌∷◌, ◌++◌, pos, length,
  length-append, arith,
}
use krafton_week.Effects.{ok, err}
use krafton_week.Text.{utf8, print_int}
use krafton_week.Protocol.Lines.{crlf, line, line-cons}
use krafton_week.Protocol.Requests.{
  incomplete_resp, Parsed, parse_resp_frame, add_command, after_frame, drain, feed_data,
}
use krafton_week.AppServer.RespClient.{encode_token, encode_tokens, encode_command}
use krafton_week.AppServer.RespClient.Requests.{parse_resp_frame-encode_command}

-- The bytes of commands, in front of more bytes.
abbrev pub encode_commands : List (List String) → List ℕ → List ℕ
encode_commands [] rest = rest
encode_commands (command ∷ commands) rest = encode_command command (encode_commands commands rest)

-- What is left of the bytes is not a command yet.
abbrev pub IsIncomplete : List ℕ → Type 0
IsIncomplete [] = Unit
IsIncomplete (b ∷ bs) =
    (message : String) × (parse_resp_frame (b ∷ bs) ≡ err (incomplete_resp message))

length-line : (value : ℕ) (rest : List ℕ) → length rest < length (line "*" (pos value) rest)
length-line value rest =
    let digits = utf8 (print_int (pos value)) in
    omega (
      arith,
      ap length (line-cons "*" (pos value) rest (omega arith)),
      length-append digits (crlf rest),
    )

length-encode_token :
    (token : String) (rest : List ℕ) → length rest ≤ length (encode_token token rest)
length-encode_token token rest =
    let bytes = utf8 token in
    let digits = utf8 (print_int (pos (length bytes))) in
    omega (
      arith,
      ap length (line-cons "$" (pos (length bytes)) (bytes ++ crlf rest) (omega arith)),
      length-append digits (crlf (bytes ++ crlf rest)),
      length-append bytes (crlf rest),
    )

length-encode_tokens :
    (tokens : List String) (rest : List ℕ) → length rest ≤ length (encode_tokens tokens rest)
length-encode_tokens [] rest = omega arith
length-encode_tokens (token ∷ tokens) rest =
    omega (
      arith,
      length-encode_tokens tokens rest,
      length-encode_token token (encode_tokens tokens rest),
    )

pub length-encode_command :
    (tokens : List String) (rest : List ℕ) → length rest < length (encode_command tokens rest)
length-encode_command tokens rest = omega (
  arith,
  length-encode_tokens tokens rest,
  length-line (length tokens) (encode_tokens tokens rest),
)

drain-frame :
    (f : ℕ) (message rest : List ℕ) (command : List String)
    → parse_resp_frame message ≡ ok (command, rest)
    → drain (suc f) message ≡ add_command command (drain f rest)
unfolding drain
drain-frame f [] rest command h = absurd (unfold parse_resp_frame in cc)
drain-frame f (b ∷ bs) rest command h =
    ap (λ (x : Parsed (List String)). after_frame x (drain f) (b ∷ bs)) h

drain-IsIncomplete :
    (f : ℕ) (rest : List ℕ) → length rest ≤ f → IsIncomplete rest → drain f rest ≡ (ok [], rest)
unfolding drain
drain-IsIncomplete zero rest enough h = refl
drain-IsIncomplete (suc f) [] enough h = refl
drain-IsIncomplete (suc f) (b ∷ bs) enough (message, h) =
    ap (λ (x : Parsed (List String)). after_frame x (drain f) (b ∷ bs)) h

drain-encode_commands :
    (f : ℕ) (commands : List (List String)) (rest : List ℕ)
    → length (encode_commands commands rest) ≤ f
    → IsIncomplete rest
    → drain f (encode_commands commands rest) ≡ (ok commands, rest)
drain-encode_commands f [] rest enough h = drain-IsIncomplete f rest enough h
drain-encode_commands zero (command ∷ commands) rest enough h =
    let more = encode_commands commands rest in
    absurd (omega (arith, enough, length-encode_command command more))
drain-encode_commands (suc f) (command ∷ commands) rest enough h =
    let more = encode_commands commands rest in
    drain-frame f (encode_command command more) more command
      (parse_resp_frame-encode_command command more)
    ∙ ap (add_command command) (
        drain-encode_commands f commands rest
          (omega (arith, enough, length-encode_command command more)) h)

-- However the bytes of some commands and of the start of a next one have been cut into what is
-- buffered and a chunk: feeding the chunk gives the commands in their order, and keeps the rest.
pub feed_data-encode_commands :
    (commands : List (List String)) (buffer chunk rest : List ℕ)
    → buffer ++ chunk ≡ encode_commands commands rest
    → IsIncomplete rest
    → feed_data chunk buffer ≡ (ok commands, rest)
unfolding feed_data
feed_data-encode_commands commands buffer chunk rest is h =
    ap (λ (bytes : List ℕ). drain (length bytes) bytes) is
    ∙ drain-encode_commands (length (encode_commands commands rest)) commands rest (omega arith) h
