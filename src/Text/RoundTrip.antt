-- ===== src/Text/RoundTrip.antt =====
-- Python's `int` reads what `str` has written of an integer, and `str` writes digits and a sign only.
use Prim.Native.Char.{Char, code}
use Prim.Native.String.{[], ◌∷◌}
use mathlib.Core.Option.{get_or}
use krafton_week.Prelude.{
  ℕ, zero, suc, ◌+◌, ◌*◌, ◌/◌, ◌%◌, ◌<◌, ◌≤◌, String, ◌≡◌, refl, ◌∙◌, ap, sym, Bool, true, false,
  Bool-cases, inl, inr, Option, some, ltb, ℤ, pos, negsuc, arith,
}
use krafton_week.Text.Chars.{to_char_below}
use krafton_week.Text.Numbers.{negate, read_digits, signed, skip_blanks, parse_int}
use krafton_week.Text.Decimal.{digit_char, print_digits, print_nat, print_int}

code-digit_char : (d : ℕ) → d < 10 → code (digit_char d) ≡ 48 + d
unfolding digit_char
code-digit_char d h =
    let (c, found, is) = to_char_below (48 + d) (omega (arith, h)) in
    ap (λ (o : Option Char). code (get_or o "0")) found ∙ is

read_digits-digit_char :
    (after : Bool) (n d : ℕ) (s : String)
    → d < 10
    → read_digits after n (digit_char d ∷ s) ≡ read_digits true (n * 10 + d) s
unfolding read_digits
read_digits-digit_char after n d s h = ground (arith, code-digit_char d h)

read_digits-print_digits :
    (f n : ℕ) (after : Bool) (rest : String)
    → n < f
    → read_digits after 0 (print_digits f n rest) ≡ read_digits true n rest
unfolding print_digits
read_digits-print_digits zero n after rest h = absurd (omega (arith, h))
read_digits-print_digits (suc f) n after rest h = elim (Bool-cases (ltb n 10)) [
  | inl small ↦ rw small (
      read_digits-digit_char after 0 (n % 10) rest (omega arith)
      ∙ ap (λ (d : ℕ). read_digits true d rest) (ground (arith, small)))
  | inr big ↦ rw big (
      read_digits-print_digits f (n / 10) after (digit_char (n % 10) ∷ rest)
        (ground (arith, big, h))
      ∙ read_digits-digit_char true (n / 10) (n % 10) rest (omega arith)
      ∙ ap (λ (d : ℕ). read_digits true d rest) (omega arith))
]

-- A digit or a sign in front, and digits.
abbrev pub IsPlain : String → Type 0
IsPlain [] = Unit
IsPlain (c ∷ s) = (45 ≤ code c) × (code c ≤ 57) × IsPlain s

print_digits-IsPlain : (f n : ℕ) (rest : String) → IsPlain rest → IsPlain (print_digits f n rest)
unfolding print_digits
print_digits-IsPlain zero n rest h = h
print_digits-IsPlain (suc f) n rest h =
    let digit = code-digit_char (n % 10) (omega arith) in
    let plain : IsPlain (digit_char (n % 10) ∷ rest) =
      (omega (arith, digit), omega (arith, digit), h) in
    elim (Bool-cases (ltb n 10)) [
      | inl small ↦ rw small plain
      | inr big ↦ rw big (print_digits-IsPlain f (n / 10) (digit_char (n % 10) ∷ rest) plain)
    ]

pub print_int-IsPlain : (z : ℤ) → IsPlain (print_int z)
unfolding print_int print_nat
print_int-IsPlain (pos n) = print_digits-IsPlain (suc n) n [] tt
print_int-IsPlain (negsuc n) =
    (omega arith, omega arith, print_digits-IsPlain (suc (suc n)) (suc n) [] tt)

-- The first character of a number is a digit.
print_digits-first :
    (f n : ℕ) (rest : String)
    → n < f
    → (c : Char) × (s : String) × (print_digits f n rest ≡ c ∷ s) × (48 ≤ code c) × (code c ≤ 57)
unfolding print_digits
print_digits-first zero n rest h = absurd (omega (arith, h))
print_digits-first (suc f) n rest h =
    let digit = code-digit_char (n % 10) (omega arith) in
    elim (Bool-cases (ltb n 10)) [
      | inl small ↦
          rw small (digit_char (n % 10), rest, refl, omega (arith, digit), omega (arith, digit))
      | inr big ↦
          rw big
            (print_digits-first f (n / 10) (digit_char (n % 10) ∷ rest) (ground (arith, big, h)))
    ]

signed_digits :
    (c : Char) (s t : String) (n : ℕ)
    → t ≡ c ∷ s
    → 48 ≤ code c
    → code c ≤ 57
    → read_digits false 0 t ≡ some n
    → signed (skip_blanks t) ≡ some (pos n)
unfolding signed skip_blanks
signed_digits c s t n is low high reads =
    let reads' = ap (read_digits false 0) (sym is) ∙ reads in
    rw is (ground (arith, low, high, reads'))

pub parse_int-print_int : (z : ℤ) → parse_int (print_int z) ≡ some z
unfolding parse_int print_int print_nat
parse_int-print_int (pos n) =
    let (c, s, is, low, high) = print_digits-first (suc n) n [] (omega arith) in
    signed_digits c s (print_digits (suc n) n []) n is low high
      (read_digits-print_digits (suc n) n false [] (omega arith))
parse_int-print_int (negsuc n) =
    (ap negate (read_digits-print_digits (suc (suc n)) (suc n) false [] (omega arith)))
    ∙ ap (λ (z : ℤ). some z) (ground arith)
