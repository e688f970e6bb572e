-- ===== src/AppServer/RespClient.antt =====
-- app_server/redis_client.py: the bytes of a command, and the replies that are read. The socket is not
-- modelled.
pub mod Requests
pub mod Replies
pub mod Streams
pub mod Methods
pub mod Results
pub mod Calls
use krafton_week.Prelude.{
  ℕ, zero, suc, ◌+◌, String, ◌≡◌, refl, ◌∙◌, ap, Bool, true, false, Option, none, some, List, [],
  ◌∷◌, ◌++◌, ℤ, pos, negsuc, eqb, ltb, length, take, drop, arith, if◌then◌else◌,
}
use krafton_week.Effects.{Result, ok, err, bind_result}
use krafton_week.Text.{utf8, decode_utf8}
use krafton_week.Storage.Seats.{SeatStatus}
use krafton_week.AppServer.Clients.{
  SeatCommandResult, QueueJoinResult, QueuePositionResult, QueueFrontResult, QueueLeaveResult,
}
use krafton_week.Protocol.Lines.{crlf, line, read_line, int_of}
use krafton_week.Protocol.Requests.{is_crlf}

-- The encoding of one token and of a command, in front of more bytes.
abbrev pub encode_token : String → List ℕ → List ℕ
encode_token token rest = line "$" (pos (length (utf8 token))) (utf8 token ++ crlf rest)

abbrev pub encode_tokens : List String → List ℕ → List ℕ
encode_tokens [] rest = rest
encode_tokens (token ∷ tokens) rest = encode_token token (encode_tokens tokens rest)

abbrev pub encode_command : List String → List ℕ → List ℕ
encode_command tokens rest = line "*" (pos (length tokens)) (encode_tokens tokens rest)

-- `RESPReply`; the second type is its lists.
mutual
  pub data RespReply : Type 0 where
    string_reply : String → RespReply
    integer_reply : ℤ → RespReply
    null_reply : RespReply
    array_reply : RespReplies → RespReply

  pub data RespReplies : Type 0 where
    no_reply : RespReplies
    next_reply : RespReply → RespReplies → RespReplies

-- `RESPReplyError` and `IncompleteRESPReplyError`, `ConflictError`, and `UnicodeDecodeError`.
pub data ReplyError : Type 0 where
  reply_error incomplete_reply error_reply : String → ReplyError
  unicode_decode_error : ReplyError

abbrev pub Read : Type 0 → Type 0
Read A = Result ReplyError (A × List ℕ)

abbrev pub incomplete_line : ReplyError
incomplete_line = incomplete_reply "incomplete RESP reply line"

abbrev decoded : Option String → List ℕ → Read RespReply
decoded none rest = err unicode_decode_error
decoded (some s) rest = ok (string_reply s, rest)

abbrev raised_error : Option String → Read RespReply
raised_error none = err unicode_decode_error
raised_error (some message) = err (error_reply message)

abbrev pub integer_value : Option ℤ → List ℕ → Read RespReply
integer_value none rest = err (reply_error "invalid RESP integer reply")
integer_value (some n) rest = ok (integer_reply n, rest)

abbrev pub bulk_payload : ℕ → List ℕ → Read RespReply
bulk_payload n rest =
    if ltb (length rest) (n + 2)
    then err (incomplete_reply "incomplete RESP bulk string reply")
    else if is_crlf (take 2 (drop n rest))
    then decoded (decode_utf8 (take n rest)) (drop 2 (drop n rest))
    else err (reply_error "RESP bulk string reply must end with CRLF")

abbrev pub bulk_value : Option ℤ → List ℕ → Read RespReply
bulk_value none rest = err (reply_error "invalid RESP bulk string length")
bulk_value (some (negsuc zero)) rest = ok (null_reply, rest)
bulk_value (some (negsuc (suc n))) rest = err (reply_error "invalid RESP bulk string length")
bulk_value (some (pos n)) rest = bulk_payload n rest

-- The loop over the items of an array, with what reads one of them.
abbrev pub next_read : RespReply → Read RespReplies → Read RespReplies
next_read value (ok (values, rest)) = ok (next_reply value values, rest)
next_read value (err e) = err e

unfoldable pub read_items : (List ℕ → Read RespReply) → ℕ → List ℕ → Read RespReplies
read_items read zero rest = ok (no_reply, rest)
read_items read (suc n) rest =
    bind_result (read rest) (λ (value, rest). next_read value (read_items read n rest))

abbrev pub as_array : Read RespReplies → Read RespReply
as_array (ok (values, rest)) = ok (array_reply values, rest)
as_array (err e) = err e

abbrev pub array_value : (List ℕ → Read RespReply) → Option ℤ → List ℕ → Read RespReply
array_value read none rest = err (reply_error "invalid RESP array length")
array_value read (some (negsuc n)) rest = err (reply_error "negative RESP arrays are not supported")
array_value read (some (pos n)) rest = as_array (read_items read n rest)

-- What a reply's first byte calls for.
abbrev dispatch : (List ℕ → Read RespReply) → ℕ → List ℕ → Read RespReply
dispatch read b bs =
    if eqb b b'+'
    then bind_result (read_line incomplete_line bs) (λ (raw, rest). decoded (decode_utf8 raw) rest)
    else if eqb b b'-'
    then bind_result (read_line incomplete_line bs) (λ (raw, rest). raised_error (decode_utf8 raw))
    else if eqb b b':'
    then bind_result (read_line incomplete_line bs) (λ (raw, rest). integer_value (int_of raw) rest)
    else if eqb b b'$'
    then bind_result (read_line incomplete_line bs) (λ (raw, rest). bulk_value (int_of raw) rest)
    else if eqb b b'*'
    then bind_result (read_line incomplete_line bs)
        (λ (raw, rest). array_value read (int_of raw) rest)
    else err (reply_error "unsupported RESP reply type")

-- Arrays nest in arrays, each level takes one of the fuel.
unfoldable pub parse_nested : ℕ → List ℕ → Read RespReply
parse_nested zero bs = err (reply_error "nested too deeply")
parse_nested (suc f) [] = err (incomplete_reply "missing RESP reply type")
parse_nested (suc f) (b ∷ bs) = dispatch (parse_nested f) b bs

-- Each level of an array has a byte of its own.
unfoldable pub parse_resp_reply : List ℕ → Read RespReply
unfolding parse_nested
parse_resp_reply message = parse_nested (suc (length message)) message
