-- ===== src/Protocol/Responses.antt =====
-- protocol/resp_encoder.py, and in server/server.py the replies of commands.
use Prim.Native.Char.{Char, code}
use Prim.Native.String.{[] as nil, ◌∷◌ as ◌◁◌, ◌++◌ as ◌<>◌}
use krafton_week.Prelude.{
  String, Bool, true, false, ◌||◌, Option, none, some, List, [], ◌∷◌, ℤ, pos, negsuc, eqb, length,
  ◌==◌, if◌then◌else◌,
}
use krafton_week.Effects.{Result, ok, err}
use krafton_week.Text.{utf8, print_int, upper}
use krafton_week.Commands.Handler.{Scalar, CommandResult, text, integer, null, scalar, array}

-- `ValueError` and `TypeError`
pub data EncodeError : Type 0 where
  value_error type_error : String → EncodeError

-- `f"{prefix}{value}\r\n"`, and more
abbrev pub text_line : Char → ℤ → String → String
text_line prefix value more = prefix ◁ (print_int value <> ("\r\n" <> more))

-- `"\r" in message or "\n" in message`
unfoldable pub has_line_break : String → Bool
has_line_break nil = false
has_line_break (c ◁ s) = if eqb (code c) 13 || eqb (code c) 10 then true else has_line_break s

abbrev on_one_line : String → Result EncodeError String → Result EncodeError String
on_one_line message encoded =
    if has_line_break message
    then err (value_error "RESP line values must not contain CR or LF characters.")
    else encoded

unfoldable pub encode_simple_string : String → Result EncodeError String
unfolding has_line_break
encode_simple_string message = on_one_line message (ok ("+" <> (message <> "\r\n")))

unfoldable pub encode_bulk_string : Option String → String
encode_bulk_string none = text_line "$" (negsuc 0) nil
encode_bulk_string (some message) = text_line "$" (pos (length (utf8 message))) (message <> "\r\n")

unfoldable pub encode_integer : ℤ → String
encode_integer value = text_line ":" value nil

unfoldable pub encode_array_item : Scalar → String
unfolding encode_integer encode_bulk_string
encode_array_item (integer n) = encode_integer n
encode_array_item null = encode_bulk_string none
encode_array_item (text s) = encode_bulk_string (some s)

unfoldable pub encode_items : List Scalar → String
unfolding encode_array_item
encode_items [] = nil
encode_items (item ∷ items) = encode_array_item item <> encode_items items

unfoldable pub encode_array : List Scalar → String
unfolding encode_items
encode_array items = text_line "*" (pos (length items)) (encode_items items)

unfoldable pub encode_error : String → Result EncodeError String
unfolding has_line_break
encode_error message = on_one_line message (ok ("-ERR " <> (message <> "\r\n")))

unfoldable pub encode_result_value : CommandResult → String
unfolding encode_array encode_integer encode_bulk_string
encode_result_value (array items) = encode_array items
encode_result_value (scalar (integer n)) = encode_integer n
encode_result_value (scalar null) = encode_bulk_string none
encode_result_value (scalar (text s)) = encode_bulk_string (some s)

-- `SIMPLE_STRING_COMMANDS` has one command.
abbrev is_simple_string_command : String → Bool
is_simple_string_command name = name == "SET"

abbrev simple_string_of : String → CommandResult → Result EncodeError String
simple_string_of name (scalar (text s)) = encode_simple_string s
simple_string_of name result = err (type_error (name <> " must return a string result"))

unfoldable pub encode_command_result : List String → CommandResult → Result EncodeError String
unfolding encode_simple_string encode_result_value
encode_command_result [] result = err (value_error "empty command")
encode_command_result (name ∷ args) result =
    if name == ""
    then err (value_error "empty command")
    else if is_simple_string_command (upper name)
    then simple_string_of (upper name) result
    else ok (encode_result_value result)
