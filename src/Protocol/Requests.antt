-- ===== src/Protocol/Requests.antt =====
-- protocol/resp_parser.py. What is left of a message stands for the index behind what was read.
use krafton_week.Prelude.{
  ℕ, zero, suc, ◌+◌, String, Bool, false, Option, none, some, List, [], ◌∷◌, ◌++◌, ℤ, pos, negsuc,
  eqb, ltb, length, take, drop, if◌then◌else◌,
}
use krafton_week.Effects.{Result, ok, err, bind_result, Exec}
use krafton_week.Text.{decode_utf8}
use krafton_week.Protocol.Lines.{read_line, int_of}

-- `ProtocolError`, and its subclass `IncompleteRESPError`.
pub data RespError : Type 0 where
  protocol_error incomplete_resp : String → RespError

abbrev pub Parsed : Type 0 → Type 0
Parsed A = Result RespError (A × List ℕ)

abbrev pub incomplete_line : RespError
incomplete_line = incomplete_resp "incomplete RESP line"

abbrev pub item_count : Option ℤ → List ℕ → Parsed ℕ
item_count none rest = err (protocol_error "invalid RESP array length")
item_count (some (negsuc n)) rest =
    err (protocol_error "negative RESP array length is not supported")
item_count (some (pos n)) rest = ok (n, rest)

unfoldable pub parse_array_header : List ℕ → Parsed ℕ
parse_array_header [] = err (incomplete_resp "missing RESP array header")
parse_array_header (b ∷ bs) =
    if eqb b b'*'
    then bind_result (read_line incomplete_line bs)
        (λ (raw_count, rest). item_count (int_of raw_count) rest)
    else err (protocol_error "expected RESP array")

-- `message[data_end:trailer_end] == b"\r\n"`
abbrev pub is_crlf : List ℕ → Bool
is_crlf (a ∷ b ∷ []) = if eqb a 13 then eqb b 10 else false
is_crlf _ = false

abbrev token_of : Option String → List ℕ → Parsed String
token_of none rest = err (protocol_error "RESP bulk string must be valid UTF-8")
token_of (some token) rest = ok (token, rest)

abbrev pub bulk_payload : ℕ → List ℕ → Parsed String
bulk_payload n rest =
    if ltb (length rest) (n + 2)
    then err (incomplete_resp "incomplete RESP bulk string payload")
    else if is_crlf (take 2 (drop n rest))
    then token_of (decode_utf8 (take n rest)) (drop 2 (drop n rest))
    else err (protocol_error "RESP bulk string payload must end with CRLF")

abbrev pub bulk_length : Option ℤ → List ℕ → Parsed String
bulk_length none rest = err (protocol_error "invalid RESP bulk string length")
bulk_length (some (negsuc n)) rest =
    err (protocol_error "null bulk strings are not supported in requests")
bulk_length (some (pos n)) rest = bulk_payload n rest

unfoldable pub parse_bulk_string : List ℕ → Parsed String
parse_bulk_string [] = err (incomplete_resp "missing RESP bulk string header")
parse_bulk_string (b ∷ bs) =
    if eqb b b'$'
    then bind_result (read_line incomplete_line bs)
        (λ (raw_length, rest). bulk_length (int_of raw_length) rest)
    else err (protocol_error "expected RESP bulk string")

abbrev pub cons_token : String → Parsed (List String) → Parsed (List String)
cons_token token (ok (tokens, rest)) = ok (token ∷ tokens, rest)
cons_token token (err e) = err e

-- The loop of `parse_resp_frame`.
unfoldable pub parse_items : ℕ → List ℕ → Parsed (List String)
unfolding parse_bulk_string
parse_items zero rest = ok ([], rest)
parse_items (suc n) rest =
    bind_result (parse_bulk_string rest) (λ (token, rest). cons_token token (parse_items n rest))

unfoldable pub parse_resp_frame : List ℕ → Parsed (List String)
unfolding parse_items parse_array_header
parse_resp_frame message =
    bind_result (parse_array_header message) (λ (count, rest). parse_items count rest)

abbrev all_of : List String → List ℕ → Result RespError (List String)
all_of command [] = ok command
all_of command (b ∷ bs) = err (protocol_error "unexpected trailing data after RESP request")

unfoldable pub parse_resp : List ℕ → Result RespError (List String)
unfolding parse_resp_frame
parse_resp message = bind_result (parse_resp_frame message) (λ (command, rest). all_of command rest)

-- `RespStreamParser` is its buffer.
abbrev RespStreamParser : Type 0
RespStreamParser = List ℕ

abbrev pub add_command :
    List String
    → Result RespError (List (List String)) × RespStreamParser
    → Result RespError (List (List String)) × RespStreamParser
add_command command (ok commands, buffer) = (ok (command ∷ commands), buffer)
add_command command (err e, buffer) = (err e, buffer)

abbrev pub after_frame :
    Parsed (List String)
    → (RespStreamParser → Result RespError (List (List String)) × RespStreamParser)
    → Exec RespError RespStreamParser (List (List String))
after_frame (ok (command, rest)) loop buffer = add_command command (loop rest)
after_frame (err (incomplete_resp message)) loop buffer = (ok [], buffer)
after_frame (err (protocol_error message)) loop buffer = (err (protocol_error message), buffer)

-- The loop of `feed_data`; each round takes one of the fuel, and a byte of the buffer at least.
unfoldable pub drain : ℕ → Exec RespError RespStreamParser (List (List String))
unfolding parse_resp_frame
drain zero buffer = (ok [], buffer)
drain (suc f) [] = (ok [], [])
drain (suc f) (b ∷ bs) = after_frame (parse_resp_frame (b ∷ bs)) (drain f) (b ∷ bs)

unfoldable pub feed_data : List ℕ → Exec RespError RespStreamParser (List (List String))
unfolding drain
feed_data chunk buffer = drain (length (buffer ++ chunk)) (buffer ++ chunk)

unfoldable pub reset : RespStreamParser → RespStreamParser
reset buffer = []
