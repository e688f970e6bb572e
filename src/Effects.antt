-- ===== src/Effects.antt =====
-- Python methods that raise. `Result` is a computation that returns or raises; an `Exec` is a
-- method that mutates an object, whose state comes back beside an exception too, since what was
-- written before a raise stays written.
pub mod Triples
use krafton_week.Prelude.{Bool, true, false, Option, none, some}

pub data Result {ℓ} (E A : Type ℓ) : Type ℓ where
  ok : A → Result E A
  err : E → Result E A

abbrev pub Exec {ℓ} : Type ℓ → Type ℓ → Type ℓ → Type ℓ
Exec E S A = S → Result E A × S

module _ {ℓ} {E A B : Type ℓ} where
  -- `try` a result, and go on with what it returned.
  abbrev pub bind_result : Result E A → (A → Result E B) → Result E B
  bind_result (ok a) f = f a
  bind_result (err e) f = err e

module _ {ℓ} {E S A : Type ℓ} where
  abbrev pub pure : A → Exec E S A
  pure a s = (ok a, s)

  abbrev pub raise : E → Exec E S A
  raise e s = (err e, s)

  abbrev pub lift : Result E A → Exec E S A
  lift r s = (r, s)

  -- A method that cannot raise.
  abbrev pub run : (S → A × S) → Exec E S A
  run m s = let (a, s') = m s in (ok a, s')

  abbrev pub gets : (S → A) → Exec E S A
  gets f s = (ok (f s), s)

  abbrev pub or_raise : Option A → E → Exec E S A
  or_raise none e = raise e
  or_raise (some a) e = pure a

infixl 5 ◌>>=◌ ◌>>◌
abbrev pub ◌>>=◌ {ℓ} : {E S A B : Type ℓ} → Exec E S A → (A → Exec E S B) → Exec E S B
◌>>=◌ m f s = let (r, s') = m s in elim r [ ok a ↦ f a s' | err e ↦ (err e, s') ]

abbrev pub ◌>>◌ {ℓ} : {E S A B : Type ℓ} → Exec E S A → Exec E S B → Exec E S B
m >> k = m >>= λ _. k

abbrev pub raise_if {ℓ} : {E S : Type ℓ} → Bool → E → Exec E S (Unit {ℓ})
raise_if true e = raise e
raise_if false e = pure tt

abbrev pub modify {ℓ} : {E S : Type ℓ} → (S → S) → Exec E S (Unit {ℓ})
modify f s = (ok tt, f s)

-- `except Exception`, with what handles the exception.
abbrev pub on_exception {ℓ} : {E S A : Type ℓ} → Exec E S A → (E → Exec E S A) → Exec E S A
on_exception m h s = let (r, s') = m s in elim r [ ok a ↦ (ok a, s') | err e ↦ h e s' ]

-- What follows a method is given its result, whether it returned or raised.
abbrev pub handle {ℓ} : {E S A B : Type ℓ} → Exec E S A → (Result E A → Exec E S B) → Exec E S B
handle m k s = let (r, s') = m s in k r s'
