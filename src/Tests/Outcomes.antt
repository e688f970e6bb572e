-- ===== src/Tests/Outcomes.antt =====
-- The value of a run that returns.
use krafton_week.Prelude.{◌≡◌, refl}
use krafton_week.Effects.{Result, ok, err}

module _ {E A S : Type 0} where
  abbrev pub IsOk : Result E A × S → Type 0
  IsOk (ok a, s) = Unit
  IsOk (err e, s) = ⊥

  abbrev pub value_of : (x : Result E A × S) → IsOk x → A
  value_of (ok a, s) h = a
  value_of (err e, s) h = absurd h

  pub returns-value_of : (x : Result E A × S) (h : IsOk x) → x ≡ (ok (value_of x h), x.1)
  returns-value_of (ok a, s) h = refl
  returns-value_of (err e, s) h = absurd h
