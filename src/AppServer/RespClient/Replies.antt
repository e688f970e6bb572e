-- ===== src/AppServer/RespClient/Replies.antt =====
-- The replies that server/server.py encodes, read by app_server/redis_client.py.
use Prim.Native.Char.{Char}
use Prim.Native.String.{[] as nil, ◌∷◌ as ◌◁◌, ◌++◌ as ◌<>◌}
use package.text.Mathlib.TextLemmas.{cons-append}
use mathlib.Core.List.{append_assoc}
use krafton_week.Prelude.{
  ℕ, suc, String, ◌≡◌, refl, sym, ◌∙◌, ap, Option, some, List, [], ◌∷◌, ◌++◌, ℤ, pos, negsuc,
  length, arith,
}
use krafton_week.Effects.{Result, ok, bind_result}
use krafton_week.Text.{utf8, print_int, decode_utf8-utf8, utf8-append}
use krafton_week.Commands.Handler.{Scalar, CommandResult, text, integer, null, scalar, array}
use krafton_week.Protocol.Lines.{
  crlf, line, int_of, read_line-line, int_of-line, line-cons, payload_enough, payload_taken,
  payload_left,
}
use krafton_week.Protocol.Responses.{
  text_line, encode_bulk_string, encode_integer, encode_array_item, encode_items, encode_array,
  encode_result_value,
}
use krafton_week.AppServer.RespClient.{
  RespReply, RespReplies, string_reply, integer_reply, null_reply, array_reply, no_reply,
  next_reply, ReplyError, Read, incomplete_line, bulk_payload, bulk_value, integer_value,
  array_value, as_array, next_read, read_items, parse_nested, parse_resp_reply,
}

-- The reply that shows a result.
abbrev scalar_reply : Scalar → RespReply
scalar_reply (text s) = string_reply s
scalar_reply (integer n) = integer_reply n
scalar_reply null = null_reply

abbrev scalar_replies : List Scalar → RespReplies
scalar_replies [] = no_reply
scalar_replies (item ∷ items) = next_reply (scalar_reply item) (scalar_replies items)

abbrev pub result_reply : CommandResult → RespReply
result_reply (scalar item) = scalar_reply item
result_reply (array items) = array_reply (scalar_replies items)

-- The bytes of a line of text.
utf8-crlf : (more : String) → utf8 ("\r\n" <> more) ≡ crlf (utf8 more)
unfolding utf8
utf8-crlf more = utf8-append "\r\n" more

utf8-text_line :
    (prefix : Char) (value : ℤ) (more : String) (rest : List ℕ)
    → utf8 (text_line prefix value more) ++ rest ≡ line prefix value (utf8 more ++ rest)
utf8-text_line prefix value more rest =
    let front = prefix ◁ print_int value in
    ap (λ (s : String). utf8 s ++ rest)
      (sym (cons-append prefix (print_int value) ("\r\n" <> more)))
    ∙ ap (λ (bs : List ℕ). bs ++ rest) (utf8-append front ("\r\n" <> more))
    ∙ ap (λ (bs : List ℕ). (utf8 front ++ bs) ++ rest) (utf8-crlf more)
    ∙ append_assoc (utf8 front) (crlf (utf8 more)) rest

module _ (f : ℕ) where
  abbrev bytes_of : ℤ → List ℕ → List ℕ
  bytes_of value rest = utf8 (print_int value) ++ crlf rest

  parse_integer :
      (value : ℤ) (rest : List ℕ)
      → parse_nested (suc f) (line ":" value rest) ≡ ok (integer_reply value, rest)
  unfolding parse_nested
  parse_integer value rest =
      ap (parse_nested (suc f)) (line-cons ":" value rest (omega arith))
      ∙ ap
          (λ (x : Result ReplyError (List ℕ × List ℕ)).
            bind_result x (λ (raw, rest). integer_value (int_of raw) rest))
          (read_line-line incomplete_line value rest)
      ∙ ap (λ (z : Option ℤ). integer_value z rest) (int_of-line value)

  parse_bulk :
      (value : ℤ) (rest : List ℕ)
      → parse_nested (suc f) (line "$" value rest) ≡ bulk_value (some value) rest
  unfolding parse_nested
  parse_bulk value rest =
      ap (parse_nested (suc f)) (line-cons "$" value rest (omega arith))
      ∙ ap
          (λ (x : Result ReplyError (List ℕ × List ℕ)).
            bind_result x (λ (raw, rest). bulk_value (int_of raw) rest))
          (read_line-line incomplete_line value rest)
      ∙ ap (λ (z : Option ℤ). bulk_value z rest) (int_of-line value)

  parse_array :
      (value : ℤ) (rest : List ℕ)
      → parse_nested (suc f) (line "*" value rest) ≡ array_value (parse_nested f) (some value) rest
  unfolding parse_nested
  parse_array value rest =
      ap (parse_nested (suc f)) (line-cons "*" value rest (omega arith))
      ∙ ap
          (λ (x : Result ReplyError (List ℕ × List ℕ)).
            bind_result x (λ (raw, rest). array_value (parse_nested f) (int_of raw) rest))
          (read_line-line incomplete_line value rest)
      ∙ ap (λ (z : Option ℤ). array_value (parse_nested f) z rest) (int_of-line value)

bulk_payload-utf8 :
    (s : String) (rest : List ℕ)
    → bulk_payload (length (utf8 s)) (utf8 s ++ crlf rest) ≡ ok (string_reply s, rest)
bulk_payload-utf8 s rest =
    let xs = utf8 s in
    rw (payload_enough xs rest, payload_left xs rest, payload_taken xs rest, decode_utf8-utf8 s)
      refl

utf8-message : (s : String) (rest : List ℕ) → utf8 (s <> "\r\n") ++ rest ≡ utf8 s ++ crlf rest
unfolding utf8
utf8-message s rest =
    ap (λ (bs : List ℕ). bs ++ rest) (utf8-append s "\r\n") ∙ append_assoc (utf8 s) (crlf []) rest

parse_nested-encode_array_item :
    (f : ℕ) (item : Scalar) (rest : List ℕ)
    → parse_nested (suc f) (utf8 (encode_array_item item) ++ rest) ≡ ok (scalar_reply item, rest)
unfolding encode_array_item encode_integer encode_bulk_string parse_nested utf8
parse_nested-encode_array_item f (integer n) rest =
    ap (parse_nested (suc f)) (utf8-text_line ":" n nil rest) ∙ parse_integer f n rest
parse_nested-encode_array_item f null rest =
    ap (parse_nested (suc f)) (utf8-text_line "$" (negsuc 0) nil rest)
    ∙ parse_bulk f (negsuc 0) rest
parse_nested-encode_array_item f (text s) rest =
    let n = pos (length (utf8 s)) in
    ap (parse_nested (suc f)) (utf8-text_line "$" n (s <> "\r\n") rest)
    ∙ ap (λ (bs : List ℕ). parse_nested (suc f) (line "$" n bs)) (utf8-message s rest)
    ∙ parse_bulk f n (utf8 s ++ crlf rest)
    ∙ bulk_payload-utf8 s rest

read_items-encode_items :
    (f : ℕ) (items : List Scalar) (rest : List ℕ)
    → read_items (parse_nested (suc f)) (length items) (utf8 (encode_items items) ++ rest)
      ≡ ok (scalar_replies items, rest)
unfolding read_items encode_items utf8
read_items-encode_items f [] rest = refl
read_items-encode_items f (item ∷ items) rest =
    ap (λ (bs : List ℕ). read_items (parse_nested (suc f)) (suc (length items)) (bs ++ rest))
      (utf8-append (encode_array_item item) (encode_items items))
    ∙ ap (read_items (parse_nested (suc f)) (suc (length items)))
        (append_assoc (utf8 (encode_array_item item)) (utf8 (encode_items items)) rest)
    ∙ ap
        (λ (x : Read RespReply). bind_result x (λ (value, rest).
          next_read value (read_items (parse_nested (suc f)) (length items) rest)))
        (parse_nested-encode_array_item f item (utf8 (encode_items items) ++ rest))
    ∙ ap (next_read (scalar_reply item)) (read_items-encode_items f items rest)

parse_nested-encode_result_value :
    (f : ℕ) (result : CommandResult) (rest : List ℕ)
    → parse_nested (suc (suc f)) (utf8 (encode_result_value result) ++ rest)
      ≡ ok (result_reply result, rest)
unfolding encode_result_value encode_array encode_array_item
parse_nested-encode_result_value f (scalar (integer n)) rest =
    parse_nested-encode_array_item (suc f) (integer n) rest
parse_nested-encode_result_value f (scalar null) rest =
    parse_nested-encode_array_item (suc f) null rest
parse_nested-encode_result_value f (scalar (text s)) rest =
    parse_nested-encode_array_item (suc f) (text s) rest
parse_nested-encode_result_value f (array items) rest =
    let n = pos (length items) in
    ap (parse_nested (suc (suc f))) (utf8-text_line "*" n (encode_items items) rest)
    ∙ parse_array (suc f) n (utf8 (encode_items items) ++ rest)
    ∙ ap as_array (read_items-encode_items f items rest)

-- The fuel is one more than the message's length, and an empty message is no reply.
enough_fuel :
    (message : List ℕ) (x : RespReply × List ℕ)
    → ((f : ℕ) → parse_nested (suc (suc f)) message ≡ ok x)
    → parse_resp_reply message ≡ ok x
unfolding parse_resp_reply
enough_fuel [] x h = h 0
enough_fuel (b ∷ bs) x h = h (length bs)

-- What the server encodes of a command's result, the client reads as that result, and leaves the bytes
-- that follow it.
pub parse_resp_reply-encode_result_value :
    (result : CommandResult) (rest : List ℕ)
    → parse_resp_reply (utf8 (encode_result_value result) ++ rest) ≡ ok (result_reply result, rest)
unfolding parse_resp_reply
parse_resp_reply-encode_result_value result rest =
    enough_fuel (utf8 (encode_result_value result) ++ rest) (result_reply result, rest)
      (λ f. parse_nested-encode_result_value f result rest)
