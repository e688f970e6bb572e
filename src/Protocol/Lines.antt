-- ===== src/Protocol/Lines.antt =====
-- What protocol/resp_parser.py and app_server/redis_client.py share: lines that end in CR LF, and the
-- numbers in them. An index into a message is the bytes that follow it.
use Prim.Native.Char.{Char, code}
use Prim.Native.String.{[] as nil, ◌∷◌ as ◌◁◌}
use krafton_week.Prelude.{
  ℕ, ◌+◌, ◌≤◌, ◌<◌, String, ◌≡◌, refl, ◌∙◌, ap, Option, none, some, List, [], ◌∷◌, ◌++◌, ℤ, eqb,
  ltb, length, take, drop, length-append, take-length, drop-length, false, arith, if◌then◌else◌,
}
use krafton_week.Effects.{Result, ok, err}
use krafton_week.Text.{
  utf8, text_of, parse_int, print_int, IsPlain, print_int-IsPlain, parse_int-print_int, utf8-ascii,
  text_of-utf8,
}

-- `RESP_LINE_ENDING`, in front of more bytes.
abbrev pub crlf : List ℕ → List ℕ
crlf rest = 13 ∷ 10 ∷ rest

abbrev after_lf : List ℕ → Option (List ℕ)
after_lf [] = none
after_lf (b ∷ bs) = if eqb b 10 then some bs else none

-- What follows a line ending that stands in front.
abbrev line_end : ℕ → List ℕ → Option (List ℕ)
line_end b bs = if eqb b 13 then after_lf bs else none

module _ {E : Type 0} where
  abbrev line_or : Option (List ℕ) → ℕ → Result E (List ℕ × List ℕ) → Result E (List ℕ × List ℕ)
  line_or (some rest) b more = ok ([], rest)
  line_or none b (ok (line, rest)) = ok (b ∷ line, rest)
  line_or none b (err e) = err e

  -- The bytes up to the first line ending, and those behind it; the exception if there is none.
  pub read_line : E → List ℕ → Result E (List ℕ × List ℕ)
  read_line incomplete [] = err incomplete
  read_line incomplete (b ∷ bs) =
      let more = read_line incomplete bs in line_or (line_end b bs) b more

-- `int` of bytes
pub int_of : List ℕ → Option ℤ
int_of bs = parse_int (text_of bs)

-- `f"{prefix}{value}\r\n".encode("utf-8")`, and more
abbrev pub line : Char → ℤ → List ℕ → List ℕ
line prefix value rest = utf8 (prefix ◁ print_int value) ++ crlf rest

module _ {E : Type 0} (incomplete : E) where
  line_or-none :
      (o : Option (List ℕ)) (b : ℕ) (more : Result E (List ℕ × List ℕ)) (bs rest : List ℕ)
      → o ≡ none
      → more ≡ ok (bs, rest)
      → line_or o b more ≡ ok (b ∷ bs, rest)
  line_or-none none b (ok (cs, r)) bs rest is h = ground (arith, h)
  line_or-none none b (err e) bs rest is h = absurd cc
  line_or-none (some x) b more bs rest is h = absurd cc

  no_line_end : (b : ℕ) (bs : List ℕ) → 45 ≤ b → line_end b bs ≡ none
  no_line_end b bs h = ground (arith, h)

  read_line-utf8 :
      (s : String) (rest : List ℕ)
      → IsPlain s
      → read_line incomplete (utf8 s ++ crlf rest) ≡ ok (utf8 s, rest)
  unfolding read_line utf8
  read_line-utf8 nil rest h = refl
  read_line-utf8 (c ◁ s) rest (low, high, h) = rw (utf8-ascii c s (omega (arith, high))) (
      line_or-none _ (code c) _ (utf8 s) rest (no_line_end (code c) (utf8 s ++ crlf rest) low)
        (read_line-utf8 s rest h))

  -- A number that has been written as a line is read.
  pub read_line-line :
      (value : ℤ) (rest : List ℕ)
      → read_line incomplete (utf8 (print_int value) ++ crlf rest)
        ≡ ok (utf8 (print_int value), rest)
  read_line-line value rest = read_line-utf8 (print_int value) rest (print_int-IsPlain value)

pub int_of-line : (value : ℤ) → int_of (utf8 (print_int value)) ≡ some value
unfolding int_of
int_of-line value =
    ap parse_int (text_of-utf8 (print_int value) (print_int-IsPlain value))
    ∙ parse_int-print_int value

-- A line is its first character, and the line of its number.
pub line-cons :
    (prefix : Char) (value : ℤ) (rest : List ℕ)
    → code prefix < 128
    → line prefix value rest ≡ code prefix ∷ (utf8 (print_int value) ++ crlf rest)
line-cons prefix value rest h =
    ap (λ (bs : List ℕ). bs ++ crlf rest) (utf8-ascii prefix (print_int value) h)

-- The payload of a bulk string is all there, with its ending.
module _ (xs rest : List ℕ) where
  pub payload_enough : ltb (length (xs ++ crlf rest)) (length xs + 2) ≡ false
  payload_enough = ground (arith, length-append xs (crlf rest))

  pub payload_taken : take (length xs) (xs ++ crlf rest) ≡ xs
  payload_taken = take-length xs (crlf rest)

  pub payload_left : drop (length xs) (xs ++ crlf rest) ≡ crlf rest
  payload_left = drop-length xs (crlf rest)
