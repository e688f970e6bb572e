-- ===== src/Text/Numbers.antt =====
-- Python's `int(text)`: blanks around, a sign, and digits with single underscores between them. Of
-- the blanks and digits beyond ASCII, which Python reads too, the model reads none.
use Prim.Native.Char.{code}
use Prim.Native.String.{[], ◌∷◌}
use krafton_week.Prelude.{
  ℕ, ◌+◌, ◌-◌, ◌*◌, String, Bool, true, false, ◌&&◌, ◌||◌, Option, none, some, leb, eqb, ℤ, pos,
  sub_ℕ, if◌then◌else◌,
}

abbrev pub is_blank : ℕ → Bool
is_blank n = eqb n 32 || (leb 9 n && leb n 13)

abbrev pub is_digit : ℕ → Bool
is_digit n = leb b'0' n && leb n b'9'

unfoldable pub skip_blanks : String → String
skip_blanks [] = []
skip_blanks (c ∷ s) = elim (is_blank (code c)) [ true ↦ skip_blanks s | false ↦ c ∷ s ]

-- Only blanks are left.
at_end : String → Bool
unfolding skip_blanks
at_end s = elim (skip_blanks s) [ [] ↦ true | c ∷ r ↦ false ]

-- The digits from left to right; the flag says that a digit has just been read.
unfoldable pub read_digits : Bool → ℕ → String → Option ℕ
unfolding at_end
read_digits after n [] = if after then some n else none
read_digits after n (c ∷ s) =
    let next = read_digits true (n * 10 + (code c - 48)) s in
    let underscore = read_digits false n s in
    if is_digit (code c)
    then next
    else if after && eqb (code c) b'_'
    then underscore
    else if after && at_end (c ∷ s)
    then some n
    else none

abbrev pub negate : Option ℕ → Option ℤ
negate none = none
negate (some n) = some (sub_ℕ 0 n)

abbrev keep : Option ℕ → Option ℤ
keep none = none
keep (some n) = some (pos n)

unfoldable pub signed : String → Option ℤ
unfolding read_digits
signed [] = none
signed (c ∷ s) =
    if eqb (code c) b'-'
    then negate (read_digits false 0 s)
    else if eqb (code c) b'+'
    then keep (read_digits false 0 s)
    else keep (read_digits false 0 (c ∷ s))

-- `none` stands for the `ValueError`.
unfoldable pub parse_int : String → Option ℤ
unfolding signed skip_blanks
parse_int s = signed (skip_blanks s)
