-- ===== src/Effects/Triples.antt =====
-- Before and after a method: from a state of `P` it returns a value of `Q`, or raises an exception of
-- `X`, with the state it leaves.
use krafton_week.Prelude.{Bool, true, false, ◌≡◌, refl, subst}
use krafton_week.Effects.{Result, ok, err, Exec, pure, raise, raise_if, on_exception, handle, ◌>>=◌}

abbrev pub Whatever : {A S : Type 0} → A → S → Type 0
Whatever a s = Unit

module _ {E S A : Type 0} where
  abbrev pub Ends : (A → S → Type 0) → (E → S → Type 0) → Result E A × S → Type 0
  Ends Q X (ok a, s) = Q a s
  Ends Q X (err e, s) = X e s

  pub record Triple (P : S → Type 0) (m : Exec E S A) (Q : A → S → Type 0) (X : E → S → Type 0)
      : Type 0 where
    pub at : (s : S) → P s → Ends Q X (m s)

  -- `P` holds after the method, however it ends.
  abbrev pub Keeps : (S → Type 0) → Exec E S A → Type 0
  Keeps P m = Triple P m (λ _. P) (λ _. P)

  module _ {P : S → Type 0} {Q : A → S → Type 0} {X : E → S → Type 0} where
    pub Triple-pure : (a : A) → ((s : S) → P s → Q a s) → Triple P (pure a) Q X
    Triple-pure a h = record { at = h }

    pub Triple-raise : (e : E) → ((s : S) → P s → X e s) → Triple P (raise e) Q X
    Triple-raise e h = record { at = h }

  pub Ends-same : (P : S → Type 0) (r : Result E A) (s : S) → P s → Ends (λ _. P) (λ _. P) (r, s)
  Ends-same P (ok a) s p = p
  Ends-same P (err e) s p = p

  -- What is known of a run that returned, and of one that raised.
  pub returned :
      (Q : A → S → Type 0) (X : E → S → Type 0) (x : Result E A × S) (a : A) (s : S)
      → x ≡ (ok a, s)
      → Ends Q X x
      → Q a s
  returned Q X x a s is h = subst (λ (x : Result E A × S). Ends Q X x) is h

  pub raised :
      (Q : A → S → Type 0) (X : E → S → Type 0) (x : Result E A × S) (e : E) (s : S)
      → x ≡ (err e, s)
      → Ends Q X x
      → X e s
  raised Q X x e s is h = subst (λ (x : Result E A × S). Ends Q X x) is h

  Ends-any : (x : Result E A × S) → Ends (λ _ _. Unit) (λ _ _. Unit) x
  Ends-any (ok a, s) = tt
  Ends-any (err e, s) = tt

  -- Of a method of which nothing is to be known.
  pub Triple-any : {P : S → Type 0} (m : Exec E S A) → Triple P m (λ _ _. Unit) (λ _ _. Unit)
  Triple-any m = record { at = λ s p. Ends-any (m s) }

  module _ {Q Q' : A → S → Type 0} {X X' : E → S → Type 0} where
    Ends-weaken :
        (x : Result E A × S)
        → ((a : A) (s : S) → Q a s → Q' a s)
        → ((e : E) (s : S) → X e s → X' e s)
        → Ends Q X x
        → Ends Q' X' x
    Ends-weaken (ok a, s) q x h = q a s h
    Ends-weaken (err e, s) q x h = x e s h

    pub Triple-weaken :
        {P : S → Type 0} {m : Exec E S A}
        → Triple P m Q X
        → ((a : A) (s : S) → Q a s → Q' a s)
        → ((e : E) (s : S) → X e s → X' e s)
        → Triple P m Q' X'
    Triple-weaken {P} {m} t q x = record { at = λ s p. Ends-weaken (m s) q x (t.at s p) }

  pub Triple-before :
      {P P' : S → Type 0} {Q : A → S → Type 0} {X : E → S → Type 0} {m : Exec E S A}
      → Triple P m Q X
      → ((s : S) → P' s → P s)
      → Triple P' m Q X
  Triple-before t h = record { at = λ s p. t.at s (h s p) }

  module _ {Q : A → S → Type 0} {X X' : E → S → Type 0} where
    Ends-on_exception :
        (h : E → Exec E S A) (x : Result E A × S) (s₀ : S)
        → Ends Q X x
        → ((e : E) → Triple (X e) (h e) Q X')
        → Ends Q X' (on_exception (λ (_ : S). x) h s₀)
    Ends-on_exception h (ok a, s) s₀ is t = is
    Ends-on_exception h (err e, s) s₀ is t = (t e).at s is

    pub Triple-on_exception :
        {P : S → Type 0} (m : Exec E S A) (h : E → Exec E S A)
        → Triple P m Q X
        → ((e : E) → Triple (X e) (h e) Q X')
        → Triple P (on_exception m h) Q X'
    Triple-on_exception {P} m h t u = record {
      at = λ s p. Ends-on_exception h (m s) s (t.at s p) u;
    }

module _ {E S A B : Type 0} {Q : A → S → Type 0} {X Y : E → S → Type 0} {R : B → S → Type 0} where
  Ends-handle :
      (k : Result E A → Exec E S B) (x : Result E A × S)
      → Ends Q X x
      → ((a : A) → Triple (Q a) (k (ok a)) R Y)
      → ((e : E) → Triple (X e) (k (err e)) R Y)
      → Ends R Y (k x.0 x.1)
  Ends-handle k (ok a, s) is t u = (t a).at s is
  Ends-handle k (err e, s) is t u = (u e).at s is

  pub Triple-handle :
      {P : S → Type 0} (m : Exec E S A) (k : Result E A → Exec E S B)
      → Triple P m Q X
      → ((a : A) → Triple (Q a) (k (ok a)) R Y)
      → ((e : E) → Triple (X e) (k (err e)) R Y)
      → Triple P (handle m k) R Y
  Triple-handle {P} m k t u v = record { at = λ s p. Ends-handle k (m s) (t.at s p) u v }

module _ {E S A B : Type 0} {Q : A → S → Type 0} {R : B → S → Type 0} {X : E → S → Type 0} where
  Ends-bind :
      (f : A → Exec E S B) (x : Result E A × S) (s₀ : S)
      → Ends Q X x
      → ((a : A) → Triple (Q a) (f a) R X)
      → Ends R X (((λ (_ : S). x) >>= f) s₀)
  Ends-bind f (ok a, s) s₀ is t = (t a).at s is
  Ends-bind f (err e, s) s₀ is t = is

  -- The steps of a `do` block, one after the other.
  pub Triple-bind :
      {P : S → Type 0} (m : Exec E S A) (f : A → Exec E S B)
      → Triple P m Q X
      → ((a : A) → Triple (Q a) (f a) R X)
      → Triple P (m >>= f) R X
  Triple-bind {P} m f t u = record { at = λ s p. Ends-bind f (m s) s (t.at s p) u }

module _ {E S : Type 0} {P : S → Type 0} {X : E → S → Type 0} where
  -- After a guard, its condition is false.
  pub Triple-raise_if :
      (b : Bool) (e : E)
      → ((s : S) → b ≡ true → P s → X e s)
      → Triple P (raise_if b e) (λ _ s. (b ≡ false) × P s) X
  Triple-raise_if true e h = record { at = λ s p. h s refl p }
  Triple-raise_if false e h = record { at = λ s p. (refl, p) }
