-- ===== src/Text/Chars.antt =====
-- Characters and their code points, both ways.
use Prim.Native.Nat.{compare, Ordering}
use Prim.Native.Char.{Char, char, code, IsLt}
use Prim.Native.String.{[], ◌∷◌}
use mathlib.Core.Option
use text.Mathlib.TextEquality.{Char-path}
use krafton_week.Prelude.{
  ℕ, String, eqb, if◌then◌else◌, ◌<◌, ◌≡◌, refl, ap, ◌∙◌, ◌⊎◌, Option, none, some, arith,
}

-- The three comparisons of `IsScalar`, as a function of their answers.
abbrev IsBelow : Ordering → Ordering → Type 0
IsBelow Ordering.lt o = IsLt o
IsBelow Ordering.eq _ = ⊥
IsBelow Ordering.gt _ = ⊥

abbrev IsScalar : Ordering → Ordering → Ordering → Type 0
IsScalar Ordering.lt _ _ = Unit
IsScalar Ordering.eq o p = IsBelow o p
IsScalar Ordering.gt o p = IsBelow o p

above : (o p : Ordering) → Option (IsBelow o p)
above Ordering.lt Ordering.lt = some tt
above Ordering.lt Ordering.eq = none
above Ordering.lt Ordering.gt = none
above Ordering.eq _ = none
above Ordering.gt _ = none

scalar? : (o p q : Ordering) → Option (IsScalar o p q)
scalar? Ordering.lt _ _ = some tt
scalar? Ordering.eq p q = above p q
scalar? Ordering.gt p q = above p q

-- Python's `chr`, on the code points that are characters: surrogates are not.
unfoldable pub to_char : ℕ → Option Char
unfolding scalar? above
to_char n = Option.map (char n) (scalar? (compare n 55296) (compare 57343 n) (compare n 1114112))

above_complete : (o p : Ordering) (h : IsBelow o p) → (k : IsBelow o p) × (above o p ≡ some k)
unfolding above
above_complete Ordering.lt Ordering.lt h = (tt, refl)
above_complete Ordering.lt Ordering.eq h = absurd h
above_complete Ordering.lt Ordering.gt h = absurd h
above_complete Ordering.eq _ h = absurd h
above_complete Ordering.gt _ h = absurd h

scalar?_complete :
    (o p q : Ordering) (h : IsScalar o p q) → (k : IsScalar o p q) × (scalar? o p q ≡ some k)
unfolding scalar?
scalar?_complete Ordering.lt _ _ h = (tt, refl)
scalar?_complete Ordering.eq p q h = above_complete p q h
scalar?_complete Ordering.gt p q h = above_complete p q h

pub to_char-code : (c : Char) → to_char (code c) ≡ some c
unfolding to_char
to_char-code (char n h) =
    let found = scalar?_complete (compare n 55296) (compare 57343 n) (compare n 1114112) h in
    ap (Option.map (char n)) found.1 ∙ ap some (Char-path (char n found.0) (char n h) refl)

pub scalar_cases : (c : Char) → (code c < 55296) ⊎ ((57343 < code c) × (code c < 1114112))
scalar_cases (char n h) = ground arith

scalar?_below :
    (o p q : Ordering) → o ≡ Ordering.lt → (k : IsScalar o p q) × (scalar? o p q ≡ some k)
unfolding scalar?
scalar?_below Ordering.lt p q h = (tt, refl)
scalar?_below Ordering.eq p q h = cc
scalar?_below Ordering.gt p q h = cc

compare_below : (m n : ℕ) → m < n → compare m n ≡ Ordering.lt
compare_below m n h = ground arith

pub to_char_below : (n : ℕ) → n < 55296 → (c : Char) × (to_char n ≡ some c) × (code c ≡ n)
unfolding to_char
to_char_below n h =
    let found =
      scalar?_below (compare n 55296) (compare 57343 n) (compare n 1114112)
        (compare_below n 55296 h) in
    (char n found.0, ap (Option.map (char n)) found.1, refl)

-- `s[len(word):]` if `s` starts with the word.
unfoldable pub strip_prefix : String → String → Option String
strip_prefix [] s = some s
strip_prefix (d ∷ w) [] = none
strip_prefix (d ∷ w) (c ∷ s) = if eqb (code d) (code c) then strip_prefix w s else none
