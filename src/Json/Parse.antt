-- ===== src/Json/Parse.antt =====
-- `json.loads`: the fuel of the recursive descent is the length of the text, which is enough since
-- every call is made after a character has been read.
use Prim.Native.Char.{code}
use Prim.Native.String.{[], ◌∷◌}
use krafton_week.Prelude.{
  ℕ, zero, suc, ◌-◌, String, ◌≡◌, refl, Bool, true, false, ◌&&◌, ◌||◌, Option, none, some, leb, eqb,
  if◌then◌else◌,
}
use krafton_week.Text.{strip_prefix}
use krafton_week.Json.Defs.{
  Json, Items, Fields, null, yes_value, no_value, number, text, array, object, nil, cons, end,
  field,
}
use krafton_week.Json.Scan.{plain, scan}

is_space : ℕ → Bool
is_space n = eqb n 32 || eqb n 9 || eqb n 10 || eqb n 13

unfoldable pub skip_ws : String → String
unfolding is_space
skip_ws [] = []
skip_ws (c ∷ s) = elim (is_space (code c)) [ true ↦ skip_ws s | false ↦ c ∷ s ]

is_digit : ℕ → Bool
is_digit n = leb b'0' n && leb n b'9'

-- The digits at the front, and what follows them.
take_digits : String → String × String
unfolding is_digit
take_digits [] = ([], [])
take_digits (c ∷ s) = elim (is_digit (code c)) [
  | true ↦ (c ∷ (take_digits s).0, (take_digits s).1)
  | false ↦ ([], c ∷ s)
]

-- `(0|[1-9]\d*)`: what follows it.
after_int : String → Option String
unfolding take_digits
after_int [] = none
after_int (c ∷ s) =
    if eqb (code c) b'0'
    then some s
    else if leb b'1' (code c) && leb (code c) b'9'
    then some (take_digits s).1
    else none

-- `(\.\d+)?`
after_fraction : String → String
unfolding take_digits
after_fraction [] = []
after_fraction (c ∷ s) =
    if eqb (code c) b'.'
    then (elim (take_digits s).0 [ [] ↦ c ∷ s | d ∷ ds ↦ (take_digits s).1 ])
    else c ∷ s

after_sign : String → String
after_sign [] = []
after_sign (c ∷ s) = if eqb (code c) b'-' || eqb (code c) b'+' then s else c ∷ s

-- `([eE][-+]?\d+)?`
after_exponent : String → String
unfolding take_digits after_sign
after_exponent [] = []
after_exponent (c ∷ s) =
    if eqb (code c) b'e' || eqb (code c) b'E'
    then (elim (take_digits (after_sign s)).0 [
      | [] ↦ c ∷ s
      | d ∷ ds ↦ (take_digits (after_sign s)).1
    ])
    else c ∷ s

after_minus : String → String
after_minus [] = []
after_minus (c ∷ s) = if eqb (code c) b'-' then s else c ∷ s

-- `front s rest` is what stands in `s` before its tail `rest`.
front : ℕ → String → String
front zero s = []
front (suc n) [] = []
front (suc n) (c ∷ s) = c ∷ front n s

unfoldable pub size : String → ℕ
size [] = 0
size (c ∷ s) = suc (size s)

-- The lexeme of a number, and what follows it.
scan_number : String → Option (String × String)
unfolding after_minus after_int after_fraction after_exponent front size
scan_number s = elim (after_int (after_minus s)) [
  | none ↦ none
  | some r ↦ some (
    front (size s - size (after_exponent (after_fraction r))) s,
    after_exponent (after_fraction r),
  )
]

abbrev as_number : Option (String × String) → Option (Json × String)
as_number none = none
as_number (some (n, rest)) = some (number n, rest)

abbrev keyword : String → Json → String → Option (Json × String) → Option (Json × String)
keyword word v s other = elim (strip_prefix word s) [ some rest ↦ some (v, rest) | none ↦ other ]

-- The values that begin with no quote and no bracket.
parse_atom : String → Option (Json × String)
unfolding strip_prefix scan_number
parse_atom s = keyword "null" null s (
    keyword "true" yes_value s (
      keyword "false" no_value s (
        keyword "NaN" (number "NaN") s (
          keyword "Infinity" (number "Infinity") s
            (keyword "-Infinity" (number "-Infinity") s (as_number (scan_number s)))))))

-- How a value begins, with the text behind the character that shows it.
pub data Kind : Type 0 where
  quote bracket brace other : String → Kind

pub kind : String → Kind
kind [] = other []
kind (c ∷ s) =
    if eqb (code c) 34
    then quote s
    else if eqb (code c) b'['
    then bracket (skip_ws s)
    else if eqb (code c) b'{'
    then brace (skip_ws s)
    else other (c ∷ s)

-- What follows an item: a comma and the next item, or the closing bracket.
pub data Separator : Type 0 where
  more last : String → Separator
  bad : Separator

pub separator : ℕ → String → Separator
separator close [] = bad
separator close (c ∷ s) =
    if eqb (code c) b',' then more (skip_ws s) else if eqb (code c) close then last s else bad

-- The rest of a text, where it begins with the given character.
unfoldable pub after_code : ℕ → String → Option String
after_code n [] = none
after_code n (c ∷ s) = if eqb n (code c) then some s else none

abbrev as_text : Option (String × String) → Option (Json × String)
as_text none = none
as_text (some (s, rest)) = some (text s, rest)

abbrev as_array : Option (Items × String) → Option (Json × String)
as_array none = none
as_array (some (vs, rest)) = some (array vs, rest)

abbrev as_object : Option (Fields × String) → Option (Json × String)
as_object none = none
as_object (some (fs, rest)) = some (object fs, rest)

abbrev with_item : Json → Option (Items × String) → Option (Items × String)
with_item v none = none
with_item v (some (vs, rest)) = some (cons v vs, rest)

abbrev with_field : String → Json → Option (Fields × String) → Option (Fields × String)
with_field k v none = none
with_field k v (some (fs, rest)) = some (field k v fs, rest)

-- The key of a field, its colon, and the text of its value.
unfoldable pub parse_key : String → Option (String × String)
parse_key s = elim (after_code 34 s) [
  | none ↦ none
  | some r ↦ elim (scan plain r) [
    | none ↦ none
    | some (k, r') ↦ elim (after_code b':' (skip_ws r')) [
      | none ↦ none
      | some r'' ↦ some (k, skip_ws r'')
    ]
  ]
]

-- One level of the descent, over the functions that parse what stands inside.
module _ (value : String → Option (Json × String)) (items : String → Option (Items × String))
    (fields : String → Option (Fields × String)) where
  unfoldable pub value_step : String → Option (Json × String)
  unfolding kind after_code scan parse_atom
  value_step s = elim (kind s) [
    | quote r ↦ as_text (scan plain r)
    | bracket r ↦ elim (after_code b']' r) [
      | some r' ↦ some (array nil, r')
      | none ↦ as_array (items r)
    ]
    | brace r ↦ elim (after_code b'}' r) [
      | some r' ↦ some (object end, r')
      | none ↦ as_object (fields r)
    ]
    | other r ↦ parse_atom r
  ]

  -- The items up to the closing bracket, which is read too.
  unfoldable pub items_step : String → Option (Items × String)
  unfolding separator skip_ws
  items_step s = elim (value s) [
    | none ↦ none
    | some (v, r) ↦ elim (separator b']' (skip_ws r)) [
      | bad ↦ none
      | last r' ↦ some (cons v nil, r')
      | more r' ↦ with_item v (items r')
    ]
  ]

  unfoldable pub fields_step : String → Option (Fields × String)
  unfolding separator skip_ws parse_key
  fields_step s = elim (parse_key s) [
    | none ↦ none
    | some (k, r) ↦ elim (value r) [
      | none ↦ none
      | some (v, r') ↦ elim (separator b'}' (skip_ws r')) [
        | bad ↦ none
        | last r'' ↦ some (field k v end, r'')
        | more r'' ↦ with_field k v (fields r'')
      ]
    ]
  ]

unfoldable mutual
  unfolding value_step items_step fields_step

  pub parse_value : ℕ → String → Option (Json × String)
  parse_value zero s = none
  parse_value (suc f) s = value_step (parse_value f) (parse_items f) (parse_fields f) s

  pub parse_items : ℕ → String → Option (Items × String)
  parse_items zero s = none
  parse_items (suc f) s = items_step (parse_value f) (parse_items f) (parse_fields f) s

  pub parse_fields : ℕ → String → Option (Fields × String)
  parse_fields zero s = none
  parse_fields (suc f) s = fields_step (parse_value f) (parse_items f) (parse_fields f) s

abbrev pub complete : Option (Json × String) → Option Json
complete none = none
complete (some (v, rest)) = elim (skip_ws rest) [ [] ↦ some v | c ∷ s ↦ none ]

-- `none` stands for `JSONDecodeError`.
unfoldable pub loads : String → Option Json
unfolding parse_value size
loads s = complete (parse_value (suc (size s)) (skip_ws s))

loads_example :
    loads " [ \"a\\u00e9\\ud83d\\ude00\" , {\"k\":null, \"v\": -1.5e3},[]] "
    ≡ some (
        array (
          cons (text "aé😀") (
            cons
              (object (field "k" null (field "v" (number "-1.5e3") end)))
              (cons (array nil) nil))))
unfolding loads krafton_week.Text.to_char
loads_example = refl
