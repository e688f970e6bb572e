-- ===== src/AppServer/RespClient/Requests.antt =====
-- The commands that app_server/redis_client.py sends, read by protocol/resp_parser.py.
use krafton_week.Prelude.{
  ℕ, Option, String, ◌≡◌, refl, ◌∙◌, ap, List, [], ◌∷◌, ◌++◌, ℤ, pos, length, arith,
}
use krafton_week.Effects.{Result, ok, bind_result}
use krafton_week.Text.{utf8, decode_utf8-utf8}
use krafton_week.Protocol.Lines.{
  crlf, line, int_of, read_line-line, int_of-line, line-cons, payload_enough, payload_taken,
  payload_left,
}
use krafton_week.Protocol.Requests.{
  RespError, Parsed, incomplete_line, item_count, bulk_length, bulk_payload, cons_token,
  parse_array_header, parse_bulk_string, parse_items, parse_resp_frame,
}
use krafton_week.AppServer.RespClient.{encode_token, encode_tokens, encode_command}

bulk_payload-utf8 :
    (token : String) (rest : List ℕ)
    → bulk_payload (length (utf8 token)) (utf8 token ++ crlf rest) ≡ ok (token, rest)
bulk_payload-utf8 token rest =
    let xs = utf8 token in
    rw (payload_enough xs rest, payload_left xs rest, payload_taken xs rest, decode_utf8-utf8 token)
      refl

parse_bulk_string-encode_token :
    (token : String) (rest : List ℕ)
    → parse_bulk_string (encode_token token rest) ≡ ok (token, rest)
unfolding parse_bulk_string
parse_bulk_string-encode_token token rest =
    let n = length (utf8 token) in
    let payload = utf8 token ++ crlf rest in
    ap parse_bulk_string (line-cons "$" (pos n) payload (omega arith))
    ∙ ap
        (λ (x : Result RespError (List ℕ × List ℕ)).
          bind_result x (λ (raw, rest). bulk_length (int_of raw) rest))
        (read_line-line incomplete_line (pos n) payload)
    ∙ ap (λ (z : Option ℤ). bulk_length z payload) (int_of-line (pos n))
    ∙ bulk_payload-utf8 token rest

parse_items-encode_tokens :
    (tokens : List String) (rest : List ℕ)
    → parse_items (length tokens) (encode_tokens tokens rest) ≡ ok (tokens, rest)
unfolding parse_items
parse_items-encode_tokens [] rest = refl
parse_items-encode_tokens (token ∷ tokens) rest =
    ap
      (λ (x : Parsed String).
        bind_result x (λ (token, rest). cons_token token (parse_items (length tokens) rest)))
      (parse_bulk_string-encode_token token (encode_tokens tokens rest))
    ∙ ap (cons_token token) (parse_items-encode_tokens tokens rest)

parse_array_header-line :
    (n : ℕ) (rest : List ℕ) → parse_array_header (line "*" (pos n) rest) ≡ ok (n, rest)
unfolding parse_array_header
parse_array_header-line n rest =
    ap parse_array_header (line-cons "*" (pos n) rest (omega arith))
    ∙ ap
        (λ (x : Result RespError (List ℕ × List ℕ)).
          bind_result x (λ (raw, rest). item_count (int_of raw) rest))
        (read_line-line incomplete_line (pos n) rest)
    ∙ ap (λ (z : Option ℤ). item_count z rest) (int_of-line (pos n))

-- The server's parser reads a command that the client has encoded, whatever texts its tokens are, and
-- leaves the bytes that follow it.
pub parse_resp_frame-encode_command :
    (tokens : List String) (rest : List ℕ)
    → parse_resp_frame (encode_command tokens rest) ≡ ok (tokens, rest)
unfolding parse_resp_frame
parse_resp_frame-encode_command tokens rest =
    ap (λ (x : Parsed ℕ). bind_result x (λ (count, rest). parse_items count rest))
      (parse_array_header-line (length tokens) (encode_tokens tokens rest))
    ∙ parse_items-encode_tokens tokens rest
