-- ===== src/Json/Scan.antt =====
-- The scanner of JSON strings, one character at a time. An escaped pair of surrogates is one
-- character; a text with an unpaired surrogate has no value in this model.
use Prim.Native.Char.{Char, code}
use Prim.Native.String.{[], ◌∷◌}
use krafton_week.Prelude.{
  ℕ, zero, suc, ◌+◌, ◌-◌, ◌*◌, String, Option, none, some, ◌&&◌, ltb, leb, eqb, if◌then◌else◌,
}
use krafton_week.Text.{to_char}

pub data Mode : Type 0 where
  plain escaped : Mode
  -- the digits that are still to come, their value so far, and the high surrogate before
  hex : ℕ → ℕ → Option ℕ → Mode
  -- a high surrogate stands before: `\` and then `u` must follow
  paired paired_escape : ℕ → Mode

pub data Step : Type 0 where
  stop fail : Step
  go : Mode → Step
  emit : Char → Step

abbrev pub emit_code : ℕ → Step
emit_code n = elim (to_char n) [ none ↦ fail | some c ↦ emit c ]

unfoldable pub hex_value : ℕ → Option ℕ
hex_value n =
    if leb b'0' n && leb n b'9'
    then some (n - 48)
    else if leb b'a' n && leb n b'f'
    then some (n - 87)
    else if leb b'A' n && leb n b'F'
    then some (n - 55)
    else none

-- After the fourth digit.
unfoldable pub finish : ℕ → Option ℕ → Step
finish v (some high) =
    if leb 0xdc00 v && leb v 0xdfff
    then emit_code (0x10000 + (high - 0xd800) * 0x400 + (v - 0xdc00))
    else fail
finish v none = if leb 0xd800 v && leb v 0xdbff then go (paired v) else emit_code v

unfoldable pub digit : ℕ → ℕ → Option ℕ → ℕ → Step
digit zero v high d = finish (v * 16 + d) high
digit (suc left) v high d = go (hex left (v * 16 + d) high)

escape_code : ℕ → Step
escape_code n =
    if eqb n b'u'
    then go (hex 3 0 none)
    else if eqb n 34
    then emit_code 34
    else if eqb n 92
    then emit_code 92
    else if eqb n b'/'
    then emit_code b'/'
    else if eqb n b'b'
    then emit_code 8
    else if eqb n b'f'
    then emit_code 12
    else if eqb n b'n'
    then emit_code 10
    else if eqb n b'r'
    then emit_code 13
    else if eqb n b't'
    then emit_code 9
    else fail

unfoldable pub step : Mode → Char → Step
unfolding finish digit escape_code hex_value
step plain c =
    if eqb (code c) 34
    then stop
    else if eqb (code c) 92
    then go escaped
    else if ltb (code c) 32
    then fail
    else emit c
step escaped c = escape_code (code c)
step (hex left v high) c = elim (hex_value (code c)) [ none ↦ fail | some d ↦ digit left v high d ]
step (paired high) c = if eqb (code c) 92 then go (paired_escape high) else fail
step (paired_escape high) c = if eqb (code c) b'u' then go (hex 3 0 (some high)) else fail

abbrev pub prefix : Char → Option (String × String) → Option (String × String)
prefix c none = none
prefix c (some (s, rest)) = some (c ∷ s, rest)

-- The text up to the closing quote, and what follows the quote.
unfoldable pub scan : Mode → String → Option (String × String)
unfolding step
scan m [] = none
scan m (c ∷ s) = elim (step m c) [
  | stop ↦ some ([], s)
  | fail ↦ none
  | go m' ↦ scan m' s
  | emit d ↦ prefix d (scan plain s)
]
