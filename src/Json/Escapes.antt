-- ===== src/Json/Escapes.antt =====
-- Scanning what the printer wrote gives the text back.
use Prim.Native.Char.{Char, code}
use Prim.Native.String.{[], ◌∷◌}
use krafton_week.Prelude.{
  ℕ, ◌+◌, ◌-◌, ◌*◌, ◌/◌, ◌%◌, ◌<◌, ◌≤◌, String, ◌≡◌, ◌≢◌, refl, sym, ap, ◌∙◌, Bool, true, false,
  ◌&&◌, Option, none, some, ltb, leb, eqb, arith, if◌then◌else◌,
}
use krafton_week.Text.{to_char-code, scalar_cases, to_char_below}
use krafton_week.Json.Scan.{
  Mode, plain, escaped, hex, paired, paired_escape, go, emit, emit_code, hex_value, finish, digit,
  step, scan, prefix,
}
use krafton_week.Json.Print.{hex_char, escape_unit, escape_char, print_chars}

code-hex_char : (d : ℕ) → d < 16 → code (hex_char d) ≡ (if ltb d 10 then 48 + d else 87 + d)
unfolding hex_char
code-hex_char d h =
    let (c, found, same) = to_char_below (if ltb d 10 then 48 + d else 87 + d) (ground arith) in
    rw found same

hex_value-hex_char : (d : ℕ) → d < 16 → hex_value (code (hex_char d)) ≡ some d
unfolding hex_value
hex_value-hex_char d h = rw (code-hex_char d h) (ground arith)

step-hex :
    (left v d : ℕ) (high : Option ℕ)
    → d < 16
    → step (hex left v high) (hex_char d) ≡ digit left v high d
unfolding step
step-hex left v d high h = rw (hex_value-hex_char d h, step) refl

scan-cons_go :
    (m : Mode) (c : Char) (rest : String) {m' : Mode}
    → step m c ≡ go m'
    → scan m (c ∷ rest) ≡ scan m' rest
unfolding scan
scan-cons_go m c rest e = rw (e, scan)

scan-cons_emit :
    (m : Mode) (c : Char) (rest : String) {d : Char}
    → step m c ≡ emit d
    → scan m (c ∷ rest) ≡ prefix d (scan plain rest)
unfolding scan
scan-cons_emit m c rest e = rw (e, scan)

-- The value of the first three digits.
scan-hex :
    (n : ℕ) (high : Option ℕ) (rest : String)
    → n < 65536
    → scan
        (hex 3 0 high)
        (hex_char (n / 4096) ∷ hex_char (n / 256 % 16) ∷ hex_char (n / 16 % 16) ∷ rest)
      ≡ scan (hex 0 (n / 16) high) rest
unfolding digit
scan-hex n high rest h =
    scan-cons_go (hex 3 0 high) _ _ (step-hex 3 0 (n / 4096) high (omega arith))
    ∙ scan-cons_go (hex 2 (0 * 16 + n / 4096) high) _ _
        (step-hex 2 (0 * 16 + n / 4096) (n / 256 % 16) high (omega arith))
    ∙ scan-cons_go (hex 1 ((0 * 16 + n / 4096) * 16 + n / 256 % 16) high) _ _
        (step-hex 1 ((0 * 16 + n / 4096) * 16 + n / 256 % 16) (n / 16 % 16) high (omega arith))
    ∙ ap (λ v. scan (hex 0 v high) rest) (omega arith)

digit-last : (n : ℕ) (high : Option ℕ) → digit 0 (n / 16) high (n % 16) ≡ finish n high
unfolding digit
digit-last n high = ap (λ v. finish v high) (omega arith)

step-last :
    (n : ℕ) (high : Option ℕ) → step (hex 0 (n / 16) high) (hex_char (n % 16)) ≡ finish n high
step-last n high = step-hex 0 (n / 16) (n % 16) high (omega arith) ∙ digit-last n high

step-backslash : step plain "\\" ≡ go escaped
unfolding step
step-backslash = refl

step-u : step escaped "u" ≡ go (hex 3 0 none)
unfolding step
step-u = refl

step-paired : (high : ℕ) → step (paired high) "\\" ≡ go (paired_escape high)
unfolding step
step-paired high = refl

step-paired_u : (high : ℕ) → step (paired_escape high) "u" ≡ go (hex 3 0 (some high))
unfolding step
step-paired_u high = refl

-- An escaped unit is read as a character, or as the first half of a pair.
scan-escape_unit_emit :
    (n : ℕ) (c : Char) (rest : String)
    → n < 65536
    → finish n none ≡ emit c
    → scan plain (escape_unit n rest) ≡ prefix c (scan plain rest)
unfolding escape_unit
scan-escape_unit_emit n c rest h e =
    scan-cons_go plain "\\" _ step-backslash
    ∙ scan-cons_go escaped "u" _ step-u
    ∙ scan-hex n none _ h
    ∙ scan-cons_emit _ _ rest (step-last n none ∙ e)

scan-escape_unit_go :
    (n : ℕ) (rest : String)
    → n < 65536
    → finish n none ≡ go (paired n)
    → scan plain (escape_unit n rest) ≡ scan (paired n) rest
unfolding escape_unit
scan-escape_unit_go n rest h e =
    scan-cons_go plain "\\" _ step-backslash
    ∙ scan-cons_go escaped "u" _ step-u
    ∙ scan-hex n none _ h
    ∙ scan-cons_go _ _ rest (step-last n none ∙ e)

scan-second_unit :
    (high n : ℕ) (c : Char) (rest : String)
    → n < 65536
    → finish n (some high) ≡ emit c
    → scan (paired high) (escape_unit n rest) ≡ prefix c (scan plain rest)
unfolding escape_unit
scan-second_unit high n c rest h e =
    scan-cons_go (paired high) "\\" _ (step-paired high)
    ∙ scan-cons_go (paired_escape high) "u" _ (step-paired_u high)
    ∙ scan-hex n (some high) _ h
    ∙ scan-cons_emit _ _ rest (step-last n (some high) ∙ e)

emit_code-code : (c : Char) → emit_code (code c) ≡ emit c
emit_code-code c = rw (to_char-code c, emit_code)

-- A character that is written as a backslash and a letter.
scan-short_escape :
    (d : Char) (n : ℕ) (c : Char) (rest : String)
    → step escaped d ≡ emit_code n
    → code c ≡ n
    → scan plain ("\\" ∷ d ∷ rest) ≡ prefix c (scan plain rest)
scan-short_escape d n c rest e same =
    scan-cons_go plain "\\" _ step-backslash
    ∙ scan-cons_emit escaped d rest (e ∙ ap emit_code (sym same) ∙ emit_code-code c)

finish-code : (c : Char) → code c < 65536 → finish (code c) none ≡ emit c
unfolding finish
finish-code c h = ground (arith, scalar_cases c, emit_code-code c)

finish-high : (k : ℕ) → k < 1024 → finish (0xd800 + k) none ≡ go (paired (0xd800 + k))
unfolding finish
finish-high k h = ground arith

finish-low :
    (c : Char) (k l : ℕ)
    → k < 1024
    → l < 1024
    → code c ≡ 0x10000 + k * 1024 + l
    → finish (0xdc00 + l) (some (0xd800 + k)) ≡ emit c
unfolding finish
finish-low c k l hk hl e =
    let same : 0x10000 + (0xd800 + k - 0xd800) * 0x400 + (0xdc00 + l - 0xdc00) ≡ code c =
      omega arith in
    ground (arith, ap emit_code same ∙ emit_code-code c)

short_escapes :
    (step escaped "\"" ≡ emit_code 34)
    × (step escaped "\\" ≡ emit_code 92)
    × (step escaped "n" ≡ emit_code 10)
    × (step escaped "r" ≡ emit_code 13)
    × (step escaped "t" ≡ emit_code 9)
    × (step escaped "f" ≡ emit_code 12)
    × (step escaped "b" ≡ emit_code 8)
unfolding step
short_escapes = (refl, refl, refl, refl, refl, refl, refl)

step-plain : (c : Char) → 32 ≤ code c → code c ≢ 34 → code c ≢ 92 → step plain c ≡ emit c
unfolding step
step-plain c h q b = ground arith

-- A pair of units is read as one character.
scan-pair :
    (c : Char) (k l : ℕ) (rest : String)
    → k < 1024
    → l < 1024
    → code c ≡ 0x10000 + k * 1024 + l
    → scan plain (escape_unit (0xd800 + k) (escape_unit (0xdc00 + l) rest))
      ≡ prefix c (scan plain rest)
scan-pair c k l rest hk hl e =
    scan-escape_unit_go (0xd800 + k) _ (omega arith) (finish-high k hk)
    ∙ scan-second_unit (0xd800 + k) (0xdc00 + l) c rest (omega arith) (finish-low c k l hk hl e)

scan-if :
    (b : Bool) (x y : String) (r : Option (String × String))
    → (b ≡ true → scan plain x ≡ r)
    → (b ≡ false → scan plain y ≡ r)
    → scan plain (if b then x else y) ≡ r
scan-if true x y r p q = p refl
scan-if false x y r p q = q refl

eqb→eq : (m n : ℕ) → eqb m n ≡ true → m ≡ n
eqb→eq m n h = ground arith

scan-escape_unit-code :
    (c : Char) (rest : String)
    → ltb (code c) 65536 ≡ true
    → scan plain (escape_unit (code c) rest) ≡ prefix c (scan plain rest)
scan-escape_unit-code c rest h =
    let small : code c < 65536 = ground arith in
    scan-escape_unit_emit (code c) c rest small (finish-code c small)

scan-pair_code :
    (c : Char) (rest : String)
    → ltb (code c) 65536 ≡ false
    → scan plain (
        escape_unit
          (0xd800 + (code c - 0x10000) / 0x400)
          (escape_unit (0xdc00 + (code c - 0x10000) % 0x400) rest))
      ≡ prefix c (scan plain rest)
scan-pair_code c rest h =
    let large : 65536 ≤ code c = ground arith in
    let bound : code c < 1114112 = omega (arith, scalar_cases c) in
    scan-pair c ((code c - 0x10000) / 0x400) ((code c - 0x10000) % 0x400) rest (omega arith)
      (omega arith) (omega arith)

module _ (c : Char) (rest : String) where
  short :
      (d : Char) (n : ℕ) (other : String)
      → step escaped d ≡ emit_code n
      → (eqb (code c) n ≡ false → scan plain other ≡ prefix c (scan plain rest))
      → scan plain (if eqb (code c) n then "\\" ∷ d ∷ rest else other) ≡ prefix c (scan plain rest)
  short d n other e =
      scan-if (eqb (code c) n) ("\\" ∷ d ∷ rest) other _
        (λ h. scan-short_escape d n c rest e (eqb→eq (code c) n h))

  scan-escape_char : scan plain (escape_char c rest) ≡ prefix c (scan plain rest)
  unfolding escape_char
  scan-escape_char = short "\"" 34 _ short_escapes.0 λ quote.
      short "\\" 92 _ short_escapes.1 λ slash.
        scan-if (leb 32 (code c) && leb (code c) 126) (c ∷ rest) _ _
          (λ h.
            scan-cons_emit plain c rest (step-plain c (ground arith) (ground arith) (ground arith)))
          λ _. short "n" 10 _ short_escapes.2 λ _. short "r" 13 _ short_escapes.3 λ _.
            short "t" 9 _ short_escapes.4 λ _. short "f" 12 _ short_escapes.5 λ _.
              short "b" 8 _ short_escapes.6 λ _.
                scan-if (ltb (code c) 65536) (escape_unit (code c) rest) _ _
                  (scan-escape_unit-code c rest) (scan-pair_code c rest)

-- What the printer wrote for a text is scanned back, whatever follows.
pub scan-print_chars : (s rest : String) → scan plain (print_chars s rest) ≡ some (s, rest)
unfolding print_chars
scan-print_chars [] rest = unfold scan step in refl
scan-print_chars (c ∷ s) rest =
    scan-escape_char c (print_chars s rest) ∙ ap (prefix c) (scan-print_chars s rest)
