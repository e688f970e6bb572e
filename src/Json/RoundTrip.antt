-- ===== src/Json/RoundTrip.antt =====
-- `loads` reads back what `dumps` wrote, for every document without numbers: the program writes no
-- other.
use Prim.Native.String.{[], ◌∷◌}
use krafton_week.Prelude.{
  ℕ, zero, suc, ◌+◌, ◌≤◌, ◌<◌, String, ◌≡◌, refl, ap, ◌∙◌, Option, none, some, arith,
}
use krafton_week.Json.Defs.{
  Json, Items, Fields, null, yes_value, no_value, number, text, array, object, nil, cons, end,
  field,
}
use krafton_week.Json.Print.{print_chars, print_text, print, print_items, print_fields, dumps}
use krafton_week.Json.Escapes.{scan-print_chars}
use krafton_week.Json.Parse.{
  complete, skip_ws, after_code, separator, kind, size, parse_key, value_step, items_step,
  fields_step, parse_value, parse_items, parse_fields, loads,
}

-- The documents without numbers.
unfoldable mutual
  pub IsTextual : Json → Type 0
  IsTextual null = Unit
  IsTextual yes_value = Unit
  IsTextual no_value = Unit
  IsTextual (number n) = ⊥
  IsTextual (text s) = Unit
  IsTextual (array vs) = AreTextual vs
  IsTextual (object fs) = HasTextual fs

  AreTextual : Items → Type 0
  AreTextual nil = Unit
  AreTextual (cons v vs) = IsTextual v × AreTextual vs

  HasTextual : Fields → Type 0
  HasTextual end = Unit
  HasTextual (field k v fs) = IsTextual v × HasTextual fs

-- Fuel that is enough to parse a document.
mutual
  fuel : Json → ℕ
  fuel null = 1
  fuel yes_value = 1
  fuel no_value = 1
  fuel (number n) = 1
  fuel (text s) = 1
  fuel (array vs) = suc (fuel_items vs)
  fuel (object fs) = suc (fuel_fields fs)

  fuel_items : Items → ℕ
  fuel_items nil = 0
  fuel_items (cons v vs) = suc (fuel v + fuel_items vs)

  fuel_fields : Fields → ℕ
  fuel_fields end = 0
  fuel_fields (field k v fs) = suc (fuel v + fuel_fields fs)

-- The items with no separator in front of the first.
print_first : Items → String → String
print_first nil rest = rest
print_first (cons v vs) rest = print v (print_items vs rest)

print_first_field : Fields → String → String
print_first_field end rest = rest
print_first_field (field k v fs) rest = print_text k (":" ∷ print v (print_fields fs rest))

skip_ws-print : (v : Json) (rest : String) → IsTextual v → skip_ws (print v rest) ≡ print v rest
unfolding skip_ws print IsTextual
skip_ws-print null rest h = refl
skip_ws-print yes_value rest h = refl
skip_ws-print no_value rest h = refl
skip_ws-print (number n) rest h = absurd h
skip_ws-print (text s) rest h = refl
skip_ws-print (array nil) rest h = refl
skip_ws-print (array (cons v vs)) rest h = refl
skip_ws-print (object end) rest h = refl
skip_ws-print (object (field k v fs)) rest h = refl

-- No value begins with a closing bracket.
after_code-print : (v : Json) (rest : String) → IsTextual v → after_code b']' (print v rest) ≡ none
unfolding after_code print IsTextual
after_code-print null rest h = refl
after_code-print yes_value rest h = refl
after_code-print no_value rest h = refl
after_code-print (number n) rest h = absurd h
after_code-print (text s) rest h = refl
after_code-print (array nil) rest h = refl
after_code-print (array (cons v vs)) rest h = refl
after_code-print (object end) rest h = refl
after_code-print (object (field k v fs)) rest h = refl

parse_key-print :
    (k : String) (v : Json) (rest : String)
    → IsTextual v
    → parse_key (print_text k (":" ∷ print v rest)) ≡ some (k, print v rest)
unfolding parse_key after_code print_text
parse_key-print k v rest h =
    rw (scan-print_chars k (":" ∷ print v rest), parse_key)
      (unfold skip_ws in ap (λ t. some (k, t)) (skip_ws-print v rest h))

-- One level of the descent, from the answers of the functions that parse what stands inside.
module _ (value : String → Option (Json × String)) (items : String → Option (Items × String))
    (fields : String → Option (Fields × String)) where
  value_step-short :
      (rest : String)
      → (value_step value items fields ("n" ∷ "u" ∷ "l" ∷ "l" ∷ rest) ≡ some (null, rest))
        × (value_step value items fields ("t" ∷ "r" ∷ "u" ∷ "e" ∷ rest) ≡ some (yes_value, rest))
        × (value_step value items fields ("f" ∷ "a" ∷ "l" ∷ "s" ∷ "e" ∷ rest)
            ≡ some (no_value, rest))
        × (value_step value items fields ("[" ∷ "]" ∷ rest) ≡ some (array nil, rest))
        × (value_step value items fields ("{" ∷ "}" ∷ rest) ≡ some (object end, rest))
  unfolding value_step skip_ws
  value_step-short rest = (refl, refl, refl, refl, refl)

  value_step-text :
      (s rest : String) → value_step value items fields (print_text s rest) ≡ some (text s, rest)
  unfolding print_text
  value_step-text s rest = let e = scan-print_chars s rest in unfold value_step in rw e

  value_step-array :
      (s : String) (vs : Items) (rest : String)
      → skip_ws s ≡ s
      → after_code b']' s ≡ none
      → items s ≡ some (vs, rest)
      → value_step value items fields ("[" ∷ s) ≡ some (array vs, rest)
  value_step-array s vs rest p q r = unfold value_step in rw (p, q, p, r, value_step, kind)

  value_step-object :
      (k t : String) (fs : Fields) (rest : String)
      → fields (print_text k t) ≡ some (fs, rest)
      → value_step value items fields ("{" ∷ print_text k t) ≡ some (object fs, rest)
  unfolding print_text
  value_step-object k t fs rest r = unfold value_step skip_ws in rw r

  items_step-last :
      (s : String) (v : Json) (rest : String)
      → value s ≡ some (v, "]" ∷ rest)
      → items_step value items fields s ≡ some (cons v nil, rest)
  items_step-last s v rest p = unfold items_step in rw (p, items_step)

  items_step-more :
      (s : String) (v : Json) (t : String) (vs : Items) (rest : String)
      → value s ≡ some (v, "," ∷ t)
      → skip_ws t ≡ t
      → items t ≡ some (vs, rest)
      → items_step value items fields s ≡ some (cons v vs, rest)
  items_step-more s v t vs rest p q r = unfold items_step in rw (p, q, r, items_step, separator)

  fields_step-last :
      (s k r : String) (v : Json) (rest : String)
      → parse_key s ≡ some (k, r)
      → value r ≡ some (v, "}" ∷ rest)
      → fields_step value items fields s ≡ some (field k v end, rest)
  fields_step-last s k r v rest o p = unfold fields_step in rw (o, p, fields_step)

  fields_step-more :
      (s k r : String) (v : Json) (j t : String) (fs : Fields) (rest : String)
      → parse_key s ≡ some (k, r)
      → value r ≡ some (v, "," ∷ print_text j t)
      → fields (print_text j t) ≡ some (fs, rest)
      → fields_step value items fields s ≡ some (field k v fs, rest)
  fields_step-more s k r v j t fs rest o p q =
      unfold fields_step print_text in rw (o, p, q, fields_step)

-- What the parser is to answer on the items of a list, of which there is one at least.
abbrev parsed_items : Items → String → ℕ → Option (Items × String)
parsed_items nil rest f = parse_items f rest
parsed_items (cons v vs) rest f = some (cons v vs, rest)

abbrev parsed_fields : Fields → String → ℕ → Option (Fields × String)
parsed_fields end rest f = parse_fields f rest
parsed_fields (field k v fs) rest f = some (field k v fs, rest)

mutual
  unfolding print print_items print_fields print_first print_first_field fuel IsTextual parse_value

  parse_value-print :
      (v : Json) (f : ℕ) (rest : String)
      → IsTextual v
      → fuel v ≤ f
      → parse_value f (print v rest) ≡ some (v, rest)
  parse_value-print null zero rest t h = absurd (omega arith)
  parse_value-print null (suc f) rest t h =
      (value_step-short (parse_value f) (parse_items f) (parse_fields f) rest).0
  parse_value-print yes_value zero rest t h = absurd (omega arith)
  parse_value-print yes_value (suc f) rest t h =
      (value_step-short (parse_value f) (parse_items f) (parse_fields f) rest).1
  parse_value-print no_value zero rest t h = absurd (omega arith)
  parse_value-print no_value (suc f) rest t h =
      (value_step-short (parse_value f) (parse_items f) (parse_fields f) rest).2
  parse_value-print (number n) f rest t h = absurd t
  parse_value-print (text s) zero rest t h = absurd (omega arith)
  parse_value-print (text s) (suc f) rest t h =
      value_step-text (parse_value f) (parse_items f) (parse_fields f) s rest
  parse_value-print (array vs) zero rest t h = absurd (omega arith)
  parse_value-print (array nil) (suc f) rest t h =
      (value_step-short (parse_value f) (parse_items f) (parse_fields f) rest).3
  parse_value-print (array (cons v vs)) (suc f) rest t h =
      value_step-array (parse_value f) (parse_items f) (parse_fields f)
        (print v (print_items vs rest)) (cons v vs) rest (skip_ws-print v _ t.0)
        (after_code-print v _ t.0) (parse_items-print (cons v vs) f rest t (omega arith))
  parse_value-print (object fs) zero rest t h = absurd (omega arith)
  parse_value-print (object end) (suc f) rest t h =
      (value_step-short (parse_value f) (parse_items f) (parse_fields f) rest).4
  parse_value-print (object (field k v fs)) (suc f) rest t h =
      value_step-object (parse_value f) (parse_items f) (parse_fields f) k
        (":" ∷ print v (print_fields fs rest)) (field k v fs) rest
        (parse_fields-print (field k v fs) f rest t (omega arith))

  parse_items-print :
      (vs : Items) (f : ℕ) (rest : String)
      → AreTextual vs
      → fuel_items vs ≤ f
      → parse_items f (print_first vs rest) ≡ parsed_items vs rest f
  parse_items-print nil f rest t h = refl
  parse_items-print (cons v vs) zero rest t h = absurd (omega arith)
  parse_items-print (cons v nil) (suc f) rest t h =
      items_step-last (parse_value f) (parse_items f) (parse_fields f) _ v rest
        (parse_value-print v f ("]" ∷ rest) t.0 (omega arith))
  parse_items-print (cons v (cons w ws)) (suc f) rest t h =
      items_step-more (parse_value f) (parse_items f) (parse_fields f) _ v
        (print w (print_items ws rest)) (cons w ws) rest (parse_value-print v f _ t.0 (omega arith))
        (skip_ws-print w _ t.1.0) (parse_items-print (cons w ws) f rest t.1 (omega arith))

  parse_fields-print :
      (fs : Fields) (f : ℕ) (rest : String)
      → HasTextual fs
      → fuel_fields fs ≤ f
      → parse_fields f (print_first_field fs rest) ≡ parsed_fields fs rest f
  parse_fields-print end f rest t h = refl
  parse_fields-print (field k v fs) zero rest t h = absurd (omega arith)
  parse_fields-print (field k v end) (suc f) rest t h =
      fields_step-last (parse_value f) (parse_items f) (parse_fields f)
        (print_text k (":" ∷ print v ("}" ∷ rest))) k _ v rest (parse_key-print k v _ t.0)
        (parse_value-print v f ("}" ∷ rest) t.0 (omega arith))
  parse_fields-print (field k v (field j w fs)) (suc f) rest t h =
      fields_step-more (parse_value f) (parse_items f) (parse_fields f)
        (print_text k (":" ∷ print v ("," ∷ print_text j (":" ∷ print w (print_fields fs rest))))) k
        _ v j (":" ∷ print w (print_fields fs rest)) (field j w fs) rest (parse_key-print k v _ t.0)
        (parse_value-print v f _ t.0 (omega arith))
        (parse_fields-print (field j w fs) f rest t.1 (omega arith))

size-print_chars : (s rest : String) → size rest < size (print_chars s rest)
unfolding size print_chars
size-print_chars [] rest = omega arith
size-print_chars (c ∷ s) rest = ground (arith, size-print_chars s rest)

size-print_text : (s rest : String) → size rest < size (print_text s rest)
unfolding size print_text
size-print_text s rest = omega (arith, size-print_chars s rest)

-- Every level of a document takes a character at least.
mutual
  unfolding print print_items print_fields fuel IsTextual size

  fuel-le-size : (v : Json) (rest : String) → IsTextual v → fuel v + size rest ≤ size (print v rest)
  fuel-le-size null rest t = omega arith
  fuel-le-size yes_value rest t = omega arith
  fuel-le-size no_value rest t = omega arith
  fuel-le-size (number n) rest t = absurd t
  fuel-le-size (text s) rest t = omega (arith, size-print_text s rest)
  fuel-le-size (array nil) rest t = omega arith
  fuel-le-size (array (cons v vs)) rest t =
      omega (arith, fuel-le-size v (print_items vs rest) t.0, fuel_items-le-size vs rest t.1)
  fuel-le-size (object end) rest t = omega arith
  fuel-le-size (object (field k v fs)) rest t = omega (
    arith,
    size-print_text k (":" ∷ print v (print_fields fs rest)),
    fuel-le-size v (print_fields fs rest) t.0,
    fuel_fields-le-size fs rest t.1,
  )

  fuel_items-le-size :
      (vs : Items) (rest : String)
      → AreTextual vs
      → fuel_items vs + size rest < size (print_items vs rest)
  fuel_items-le-size nil rest t = omega arith
  fuel_items-le-size (cons v vs) rest t =
      omega (arith, fuel-le-size v (print_items vs rest) t.0, fuel_items-le-size vs rest t.1)

  fuel_fields-le-size :
      (fs : Fields) (rest : String)
      → HasTextual fs
      → fuel_fields fs + size rest < size (print_fields fs rest)
  fuel_fields-le-size end rest t = omega arith
  fuel_fields-le-size (field k v fs) rest t = omega (
    arith,
    size-print_text k (":" ∷ print v (print_fields fs rest)),
    fuel-le-size v (print_fields fs rest) t.0,
    fuel_fields-le-size fs rest t.1,
  )

-- Reading what was written gives the document back: for every document without numbers.
pub loads-dumps : (v : Json) → IsTextual v → loads (dumps v) ≡ some v
unfolding dumps
loads-dumps v t =
    let same = skip_ws-print v [] t in
    let parsed =
      parse_value-print v (suc (size (print v []))) [] t (omega (arith, fuel-le-size v [] t)) in
    unfold loads in ap complete (ap (parse_value (suc (size (print v [])))) same ∙ parsed)
