-- ===== src/Ticketing/Tables/Finds.antt =====
-- What `find` returns after each SQL statement of ticketing_api/repository.py.
use krafton_week.Prelude.{
  ◌≡◌, refl, Bool, true, false, Bool-cases, inl, inr, Option, none, some, List, [], ◌∷◌, ◌++◌,
  arith, if◌then◌else◌,
}
use krafton_week.Ticketing.Tables.{find, any, update}

-- The rows of an `UPDATE`, one by one.
abbrev pub changed {ℓ} : {A : Type ℓ} → (A → Bool) → (A → A) → Option A → Option A
changed q f none = none
changed q f (some x) = some (if q x then f x else x)

module _ {ℓ} {A : Type ℓ} where
  pub find-update :
      (p q : A → Bool) (f : A → A) (xs : List A)
      → ((x : A) → p (f x) ≡ p x)
      → find p (update q f xs) ≡ changed q f (find p xs)
  unfolding find update
  find-update p q f [] keeps = refl
  find-update p q f (x ∷ xs) keeps = ground (arith, find-update p q f xs keeps, keeps x)

  pub find-append :
      (p : A → Bool) (xs : List A) (y : A)
      → find p (xs ++ y ∷ [])
        ≡ elim (find p xs) [ none ↦ if p y then some y else none | some x ↦ some x ]
  unfolding find
  find-append p [] y = refl
  find-append p (x ∷ xs) y = ground (arith, find-append p xs y)

  pub find_fits : (p : A → Bool) (xs : List A) (y : A) → find p xs ≡ some y → p y ≡ true
  unfolding find
  find_fits p [] y h = absurd cc
  find_fits p (x ∷ xs) y h = ground (arith, find_fits p xs y)

  pub any_none :
      (p q : A → Bool) (xs : List A) (y : A) → any p xs ≡ false → find q xs ≡ some y → p y ≡ false
  unfolding find any
  any_none p q [] y h is = absurd cc
  any_none p q (x ∷ xs) y h is = ground (arith, any_none p q xs y)

  pub find-none : (p : A → Bool) (xs : List A) → any p xs ≡ false → find p xs ≡ none
  unfolding find any
  find-none p [] h = refl
  find-none p (x ∷ xs) h = ground (arith, find-none p xs)

  pub find-some : (p : A → Bool) (xs : List A) → any p xs ≡ true → (y : A) × (find p xs ≡ some y)
  unfolding find any
  find-some p [] h = absurd cc
  find-some p (x ∷ xs) h = elim (Bool-cases (p x)) [
    | inl e ↦ (x, rw (e, find) refl)
    | inr e ↦ let (y, found) = find-some p xs (ground arith) in (y, rw (e, find) found)
  ]
