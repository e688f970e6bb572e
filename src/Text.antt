-- ===== src/Text.antt =====
-- What the program uses of Python's `str`: `upper`, and characters by their code points. `upper`
-- maps the ASCII letters, and leaves every other character as it is.
mod Chars
mod Numbers
mod Decimal
mod RoundTrip
mod Utf8
mod Strip
unfoldable pub use Numbers.{parse_int}
unfoldable pub use Decimal.{print_int}
pub use RoundTrip.{IsPlain, print_int-IsPlain, parse_int-print_int}
unfoldable pub use Strip.{strip}
unfoldable pub use Utf8.{utf8, decode_utf8, text_of}
pub use Utf8.{decode_utf8-utf8, utf8-ascii, utf8-append, text_of-utf8}
pub use Chars.{to_char-code, scalar_cases, to_char_below}
unfoldable pub use Chars.{to_char, strip_prefix}
use Prim.Native.Char.{Char, code}
use Prim.Native.String.{[], ◌∷◌}
use mathlib.Core.Option.{get_or}
use krafton_week.Prelude.{ℕ, ◌-◌, String, ◌≡◌, refl, ◌&&◌, leb, arith, if◌then◌else◌}

upper_char : Char → Char
unfolding to_char
upper_char c =
    if leb b'a' (code c) && leb (code c) b'z' then get_or (to_char (code c - 32)) c else c

unfoldable pub upper : String → String
unfolding upper_char
upper [] = []
upper (c ∷ s) = upper_char c ∷ upper s

upper_example : upper "Seat_status 9é" ≡ "SEAT_STATUS 9é"
unfolding upper
upper_example = refl
