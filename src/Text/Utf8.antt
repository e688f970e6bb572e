-- ===== src/Text/Utf8.antt =====
-- Python's `str.encode("utf-8")` and `bytes.decode("utf-8")`. A byte is a number below 256.
use Prim.Native.Char.{Char, code}
use Prim.Native.String.{[] as nil, ◌∷◌ as ◌◁◌, ◌++◌ as ◌<>◌}
use krafton_week.Prelude.{
  ℕ, zero, suc, ◌+◌, ◌-◌, ◌*◌, ◌/◌, ◌%◌, ◌<◌, ◌≤◌, String, ◌≡◌, refl, ◌∙◌, ap, ◌&&◌, ltb, leb,
  Option, none, some, List, [], ◌∷◌, ◌++◌, arith, if◌then◌else◌, Bool-cases, inl, inr, true, false,
}
use text.Mathlib.TextLemmas.{nil-append, cons-append}
use mathlib.Core.Option.{get_or}
use krafton_week.Text.RoundTrip.{IsPlain}
use krafton_week.Text.Chars.{to_char, to_char-code, scalar_cases}

-- The bytes of a code point in front of others.
unfoldable pub encode_code : ℕ → List ℕ → List ℕ
encode_code n rest =
    if ltb n 128
    then n ∷ rest
    else if ltb n 2048
    then (192 + n / 64) ∷ (128 + n % 64) ∷ rest
    else if ltb n 65536
    then (224 + n / 4096) ∷ (128 + n / 64 % 64) ∷ (128 + n % 64) ∷ rest
    else (240 + n / 262144) ∷ (128 + n / 4096 % 64) ∷ (128 + n / 64 % 64) ∷ (128 + n % 64) ∷ rest

unfoldable pub utf8 : String → List ℕ
unfolding encode_code
utf8 nil = []
utf8 (c ◁ s) = encode_code (code c) (utf8 s)

abbrev cons_char : Option Char → Option String → Option String
cons_char (some c) (some s) = some (c ◁ s)
cons_char _ _ = none

-- The state of the decoder: how many bytes of a character are to come, its bits so far, and the least
-- code point that is written with so many bytes.
unfoldable pub decode_from : ℕ → ℕ → ℕ → List ℕ → Option String
decode_from zero n low [] = some nil
decode_from (suc k) n low [] = none
decode_from zero n low (b ∷ bs) =
    let rest = decode_from zero 0 0 bs in
    let two = decode_from 1 (b - 192) 128 bs in
    let three = decode_from 2 (b - 224) 2048 bs in
    let four = decode_from 3 (b - 240) 65536 bs in
    if ltb b 128
    then cons_char (to_char b) rest
    else if ltb b 192
    then none
    else if ltb b 224
    then two
    else if ltb b 240
    then three
    else if ltb b 248
    then four
    else none
decode_from (suc k) n low (b ∷ bs) =
    let m = n * 64 + (b - 128) in
    let rest = decode_from zero 0 0 bs in
    let more = decode_from k m low bs in
    if leb 128 b && ltb b 192
    then elim k [ zero ↦ if leb low m then cons_char (to_char m) rest else none | suc j ↦ more ]
    else none

unfoldable pub decode_utf8 : List ℕ → Option String
unfolding decode_from
decode_utf8 bs = decode_from zero 0 0 bs

ltb-true : (a b : ℕ) → a < b → ltb a b ≡ true
ltb-true a b h = ground (arith, h)

ltb-false : (a b : ℕ) → b ≤ a → ltb a b ≡ false
ltb-false a b h = ground (arith, h)

is_lt : (a b : ℕ) → ltb a b ≡ true → a < b
is_lt a b h = ground (arith, h)

is_ge : (a b : ℕ) → ltb a b ≡ false → b ≤ a
is_ge a b h = ground (arith, h)

decode_one :
    (b : ℕ) (bs : List ℕ)
    → b < 128
    → decode_from zero 0 0 (b ∷ bs) ≡ cons_char (to_char b) (decode_from zero 0 0 bs)
unfolding decode_from
decode_one b bs below = rw (ltb-true b 128 below) refl

-- A byte that goes on, and those that start a character of two, three or four.
decode_more :
    (k n low b : ℕ) (bs : List ℕ)
    → 128 ≤ b
    → b < 192
    → decode_from (suc (suc k)) n low (b ∷ bs) ≡ decode_from (suc k) (n * 64 + (b - 128)) low bs
unfolding decode_from
decode_more k n low b bs at_least below = ground (arith, at_least, below)

decode_last :
    (n low b : ℕ) (bs : List ℕ)
    → 128 ≤ b
    → b < 192
    → low ≤ n * 64 + (b - 128)
    → decode_from 1 n low (b ∷ bs)
      ≡ cons_char (to_char (n * 64 + (b - 128))) (decode_from zero 0 0 bs)
unfolding decode_from
decode_last n low b bs at_least below enough = ground (arith, at_least, below, enough)

decode_two :
    (b : ℕ) (bs : List ℕ)
    → 192 ≤ b
    → b < 224
    → decode_from zero 0 0 (b ∷ bs) ≡ decode_from 1 (b - 192) 128 bs
unfolding decode_from
decode_two b bs at_least below =
    rw
      (
        ltb-false b 128 (omega (arith, at_least)),
        ltb-false b 192 (omega (arith, at_least)),
        ltb-true b 224 below,
      )
      refl

decode_three :
    (b : ℕ) (bs : List ℕ)
    → 224 ≤ b
    → b < 240
    → decode_from zero 0 0 (b ∷ bs) ≡ decode_from 2 (b - 224) 2048 bs
unfolding decode_from
decode_three b bs at_least below =
    rw
      (
        ltb-false b 128 (omega (arith, at_least)),
        ltb-false b 192 (omega (arith, at_least)),
        ltb-false b 224 (omega (arith, at_least)),
        ltb-true b 240 below,
      )
      refl

decode_four :
    (b : ℕ) (bs : List ℕ)
    → 240 ≤ b
    → b < 248
    → decode_from zero 0 0 (b ∷ bs) ≡ decode_from 3 (b - 240) 65536 bs
unfolding decode_from
decode_four b bs at_least below =
    rw
      (
        ltb-false b 128 (omega (arith, at_least)),
        ltb-false b 192 (omega (arith, at_least)),
        ltb-false b 224 (omega (arith, at_least)),
        ltb-false b 240 (omega (arith, at_least)),
        ltb-true b 248 below,
      )
      refl

-- The code point that the bits make up.
same :
    (n : ℕ) (rest : List ℕ) {m : ℕ}
    → m ≡ n
    → cons_char (to_char m) (decode_from zero 0 0 rest)
      ≡ cons_char (to_char n) (decode_from zero 0 0 rest)
same n rest {m} is = ap (λ (m : ℕ). cons_char (to_char m) (decode_from zero 0 0 rest)) is

decode_from-encode_code :
    (n : ℕ) (rest : List ℕ)
    → n < 1114112
    → decode_from zero 0 0 (encode_code n rest) ≡ cons_char (to_char n) (decode_from zero 0 0 rest)
unfolding encode_code
decode_from-encode_code n rest h = elim (Bool-cases (ltb n 128)) [
  | inl e ↦ rw e (decode_one n rest (is_lt n 128 e))
  | inr e₁ ↦ elim (Bool-cases (ltb n 2048)) [
    | inl e ↦
        let l = is_ge n 128 e₁ in
        let u = is_lt n 2048 e in
        rw (e₁, e)
          (decode_two (192 + n / 64) ((128 + n % 64) ∷ rest) (omega arith) (omega (arith, u))
            ∙ decode_last (192 + n / 64 - 192) 128 (128 + n % 64) rest (omega arith) (omega arith)
                (omega (arith, l))
            ∙ same n rest (omega arith))
    | inr e₂ ↦ elim (Bool-cases (ltb n 65536)) [
      | inl e ↦
          let l = is_ge n 2048 e₂ in
          let u = is_lt n 65536 e in
          rw (e₁, e₂, e)
            (decode_three (224 + n / 4096) _ (omega arith) (omega (arith, u))
              ∙ decode_more 0 (224 + n / 4096 - 224) 2048 (128 + n / 64 % 64) _ (omega arith)
                  (omega arith)
              ∙ decode_last ((224 + n / 4096 - 224) * 64 + (128 + n / 64 % 64 - 128)) 2048
                  (128 + n % 64) rest (omega arith) (omega arith) (omega (arith, l))
              ∙ same n rest (omega arith))
      | inr e₃ ↦
          let l = is_ge n 65536 e₃ in
          let m₁ = 240 + n / 262144 - 240 in
          let m₂ = m₁ * 64 + (128 + n / 4096 % 64 - 128) in
          rw (e₁, e₂, e₃)
            (decode_four (240 + n / 262144) _ (omega arith) (omega (arith, h))
              ∙ decode_more 1 m₁ 65536 (128 + n / 4096 % 64) _ (omega arith) (omega arith)
              ∙ decode_more 0 m₂ 65536 (128 + n / 64 % 64) _ (omega arith) (omega arith)
              ∙ decode_last (m₂ * 64 + (128 + n / 64 % 64 - 128)) 65536 (128 + n % 64) rest
                  (omega arith) (omega arith) (omega (arith, l))
              ∙ same n rest (omega arith))
    ]
  ]
]

-- Decoding gives back the text that was encoded.
pub decode_utf8-utf8 : (s : String) → decode_utf8 (utf8 s) ≡ some s
unfolding decode_utf8 utf8
decode_utf8-utf8 nil = refl
decode_utf8-utf8 (c ◁ s) =
    decode_from-encode_code (code c) (utf8 s) (ground (arith, scalar_cases c))
    ∙ ap (λ (o : Option String). cons_char (to_char (code c)) o) (decode_utf8-utf8 s)
    ∙ ap (λ (o : Option Char). cons_char o (some s)) (to_char-code c)

-- The characters of bytes that are read as a number: each byte stands for one.
unfoldable pub text_of : List ℕ → String
text_of [] = nil
text_of (b ∷ bs) = get_or (to_char b) "?" ◁ text_of bs

-- In front of other bytes a character of ASCII is one byte.
pub utf8-ascii : (c : Char) (s : String) → code c < 128 → utf8 (c ◁ s) ≡ code c ∷ utf8 s
unfolding utf8 encode_code
utf8-ascii c s h = rw (ltb-true (code c) 128 h) refl

pub text_of-utf8 : (s : String) → IsPlain s → text_of (utf8 s) ≡ s
unfolding text_of utf8
text_of-utf8 nil h = refl
text_of-utf8 (c ◁ s) (low, high, h) =
    ap text_of (utf8-ascii c s (omega (arith, high)))
    ∙ ap (λ (o : Option Char). get_or o "?" ◁ text_of (utf8 s)) (to_char-code c)
    ∙ ap (λ (t : String). c ◁ t) (text_of-utf8 s h)

encode_code-append : (n : ℕ) (xs ys : List ℕ) → encode_code n (xs ++ ys) ≡ encode_code n xs ++ ys
unfolding encode_code
encode_code-append n xs ys = elim (Bool-cases (ltb n 128)) [
  | inl e ↦ rw e refl
  | inr e₁ ↦ elim (Bool-cases (ltb n 2048)) [
    | inl e ↦ rw (e₁, e) refl
    | inr e₂ ↦ elim (Bool-cases (ltb n 65536)) [
      | inl e ↦ rw (e₁, e₂, e) refl
      | inr e₃ ↦ rw (e₁, e₂, e₃) refl
    ]
  ]
]

-- The bytes of two texts, one behind the other.
pub utf8-append : (s t : String) → utf8 (s <> t) ≡ utf8 s ++ utf8 t
unfolding utf8
utf8-append nil t = ap utf8 (nil-append t)
utf8-append (c ◁ s) t =
    ap utf8 (cons-append c s t)
    ∙ ap (encode_code (code c)) (utf8-append s t)
    ∙ encode_code-append (code c) (utf8 s) (utf8 t)
