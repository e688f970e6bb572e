-- ===== src/Text/Strip.antt =====
-- Python's `str.strip`, on the blanks of ASCII.
use Prim.Native.Char.{Char, code}
use Prim.Native.String.{[], ◌∷◌}
use krafton_week.Prelude.{String, ◌≡◌, refl, true, false}
use krafton_week.Text.Numbers.{is_blank, skip_blanks}

-- A character in front of what is left of a text whose end has been stripped.
abbrev keep_char : Char → String → String
keep_char c [] = elim (is_blank (code c)) [ true ↦ [] | false ↦ c ∷ [] ]
keep_char c (d ∷ s) = c ∷ d ∷ s

strip_end : String → String
strip_end [] = []
strip_end (c ∷ s) = keep_char c (strip_end s)

unfoldable pub strip : String → String
unfolding strip_end skip_blanks
strip s = strip_end (skip_blanks s)

strip_example : strip " a b\r\n" ≡ "a b"
unfolding strip
strip_example = refl
