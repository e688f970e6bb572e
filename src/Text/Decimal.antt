-- ===== src/Text/Decimal.antt =====
-- Python's `str` of an integer.
use Prim.Native.Char.{Char}
use Prim.Native.String.{[], ◌∷◌}
use mathlib.Core.Option.{get_or}
use krafton_week.Prelude.{ℕ, zero, suc, ◌+◌, ◌/◌, ◌%◌, String, ltb, ℤ, pos, negsuc, if◌then◌else◌}
use krafton_week.Text.Chars.{to_char}

unfoldable pub digit_char : ℕ → Char
unfolding to_char
digit_char d = get_or (to_char (48 + d)) "0"

-- The digits of a number in front of a text. Each takes one of the fuel.
unfoldable pub print_digits : ℕ → ℕ → String → String
print_digits zero n rest = rest
print_digits (suc f) n rest =
    let more = print_digits f (n / 10) (digit_char (n % 10) ∷ rest) in
    if ltb n 10 then digit_char (n % 10) ∷ rest else more

-- A number has at most as many digits as it is great, or one.
unfoldable pub print_nat : ℕ → String
unfolding print_digits digit_char
print_nat n = print_digits (suc n) n []

unfoldable pub print_int : ℤ → String
unfolding print_nat
print_int (pos n) = print_nat n
print_int (negsuc n) = "-" ∷ print_nat (suc n)
