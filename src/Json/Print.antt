-- ===== src/Json/Print.antt =====
-- `json.dumps` with `ensure_ascii`. Each printer writes in front of what follows.
use Prim.Native.Char.{Char, code}
use Prim.Native.String as S
use Prim.Native.String.{[], ◌∷◌}
use mathlib.Core.Option.{get_or}
use krafton_week.Prelude.{
  ℕ, ◌+◌, ◌-◌, ◌/◌, ◌%◌, String, ◌≡◌, refl, ◌&&◌, ltb, leb, eqb, if◌then◌else◌,
}
use krafton_week.Text.{to_char}
use krafton_week.Json.Defs.{
  Json, Items, Fields, null, yes_value, no_value, number, text, array, object, nil, cons, end,
  field,
}

unfoldable pub hex_char : ℕ → Char
unfolding to_char
hex_char d = get_or (to_char (if ltb d 10 then 48 + d else 87 + d)) "0"

-- `\uXXXX`
unfoldable pub escape_unit : ℕ → String → String
unfolding hex_char
escape_unit n rest =
    "\\"
    ∷ "u"
    ∷ hex_char (n / 4096)
    ∷ hex_char (n / 256 % 16)
    ∷ hex_char (n / 16 % 16)
    ∷ hex_char (n % 16)
    ∷ rest

unfoldable pub escape_char : Char → String → String
unfolding escape_unit
escape_char c rest =
    if eqb (code c) 34
    then "\\" ∷ "\"" ∷ rest
    else if eqb (code c) 92
    then "\\" ∷ "\\" ∷ rest
    else if leb 32 (code c) && leb (code c) 126
    then c ∷ rest
    else if eqb (code c) 10
    then "\\" ∷ "n" ∷ rest
    else if eqb (code c) 13
    then "\\" ∷ "r" ∷ rest
    else if eqb (code c) 9
    then "\\" ∷ "t" ∷ rest
    else if eqb (code c) 12
    then "\\" ∷ "f" ∷ rest
    else if eqb (code c) 8
    then "\\" ∷ "b" ∷ rest
    else if ltb (code c) 0x10000
    then escape_unit (code c) rest
    else escape_unit (0xd800 + (code c - 0x10000) / 0x400)
        (escape_unit (0xdc00 + (code c - 0x10000) % 0x400) rest)

-- The characters and the closing quote.
unfoldable pub print_chars : String → String → String
unfolding escape_char
print_chars [] rest = "\"" ∷ rest
print_chars (c ∷ s) rest = escape_char c (print_chars s rest)

unfoldable pub print_text : String → String → String
unfolding print_chars
print_text s rest = "\"" ∷ print_chars s rest

unfoldable mutual
  unfolding print_text

  pub print : Json → String → String
  print null rest = "n" ∷ "u" ∷ "l" ∷ "l" ∷ rest
  print yes_value rest = "t" ∷ "r" ∷ "u" ∷ "e" ∷ rest
  print no_value rest = "f" ∷ "a" ∷ "l" ∷ "s" ∷ "e" ∷ rest
  print (number n) rest = S.◌++◌ n rest
  print (text s) rest = print_text s rest
  print (array nil) rest = "[" ∷ "]" ∷ rest
  print (array (cons v vs)) rest = "[" ∷ print v (print_items vs rest)
  print (object end) rest = "{" ∷ "}" ∷ rest
  print (object (field k v fs)) rest = "{" ∷ print_text k (":" ∷ print v (print_fields fs rest))

  pub print_items : Items → String → String
  print_items nil rest = "]" ∷ rest
  print_items (cons v vs) rest = "," ∷ print v (print_items vs rest)

  pub print_fields : Fields → String → String
  print_fields end rest = "}" ∷ rest
  print_fields (field k v fs) rest = "," ∷ print_text k (":" ∷ print v (print_fields fs rest))

unfoldable pub dumps : Json → String
unfolding print
dumps v = print v []

dumps_example :
    dumps (object (field "state" (text "H\"\né😀") (field "user_id" null end)))
    ≡ "{\"state\":\"H\\\"\\n\\u00e9\\ud83d\\ude00\",\"user_id\":null}"
unfolding dumps
dumps_example = refl
