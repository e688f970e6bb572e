-- ===== src/Storage/Seats/Safety.antt =====
-- What holds over any run of seat requests.
use krafton_week.Prelude.{
  String, ◌≡◌, ◌≢◌, sym, subst, Bool, true, false, Bool-cases, inl, inr, some, List, [], ◌∷◌, All,
  ◌==◌, eq_iff, arith, ℤ, ◌<ℤ◌, ◌⊎◌,
}
use krafton_week.Dict.{lookup}
use krafton_week.Storage.Engine.{Store}
use krafton_week.Storage.Seats.{held_entry, confirmed_entry}
use krafton_week.Storage.Seats.Requests.{
  SeatRequest, key_of, user_of, perform, perform_all, succeeded, perform-others, perform-confirmed,
  perform-held,
}

String-cases : (a b : String) → (a ≡ b) ⊎ (a ≢ b)
String-cases a b = elim (Bool-cases (a == b)) [
  | inl e ↦ inl ((eq_iff a b).0 e)
  | inr e ↦ inr (λ p. ground (arith, eq_iff a b))
]

-- In the log of a run, only `u` succeeds on the seat of `key`.
abbrev pub OnlyUser : String → String → SeatRequest × Bool → Type 0
OnlyUser key u (request, won) = key_of request ≡ key → won ≡ true → user_of request ≡ u

-- In the log of a run, nobody succeeds on the seat of `key`.
abbrev pub Fails : String → SeatRequest × Bool → Type 0
Fails key (request, won) = key_of request ≡ key → won ≡ false

-- A request before the deadline, and on the seat of `key` not from `u`.
abbrev IsRival : String → String → ℤ → ℤ × SeatRequest → Type 0
IsRival key u d (now, request) =
    (now <ℤ d) × (key_of request ≡ key → (user_of request == u) ≡ false)

module _ (now : ℤ) (request : SeatRequest) (s : Store) (key u : String) where
  step-confirmed :
      lookup key s ≡ some (confirmed_entry u)
      → let (r, s') = perform now request s in
        (lookup key s' ≡ some (confirmed_entry u)) × OnlyUser key u (request, succeeded r)
  step-confirmed is = elim (String-cases (key_of request) key) [
    | inl p ↦
        let step =
          perform-confirmed now s u request
            (subst (λ (k : String). lookup k s ≡ some (confirmed_entry u)) (sym p) is) in
        (
          subst (λ (k : String). lookup k (perform now request s).1 ≡ some (confirmed_entry u)) p
              step.0,
          λ _. step.1,
        )
    | inr ne ↦ (rw (perform-others now request s key ne) is, λ p. absurd (ne p))
  ]

  step-held :
      (d : ℤ)
      → IsRival key u d (now, request)
      → lookup key s ≡ some (held_entry u d)
      → let (r, s') = perform now request s in
        (lookup key s' ≡ some (held_entry u d)) × Fails key (request, succeeded r)
  step-held d rival is = elim (String-cases (key_of request) key) [
    | inl p ↦
        let step =
          perform-held now s u d request rival.0 (rival.1 p)
            (subst (λ (k : String). lookup k s ≡ some (held_entry u d)) (sym p) is) in
        (
          subst (λ (k : String). lookup k (perform now request s).1 ≡ some (held_entry u d)) p
              step.0,
          λ _. step.1,
        )
    | inr ne ↦ (rw (perform-others now request s key ne) is, λ p. absurd (ne p))
  ]

-- Once a seat is confirmed for `u` it stays so, whatever is requested, and no other user's request
-- on it succeeds.
pub confirmed_for_good :
    (requests : List (ℤ × SeatRequest)) (s : Store) (key u : String)
    → lookup key s ≡ some (confirmed_entry u)
    → let (log, s') = perform_all requests s in
      (lookup key s' ≡ some (confirmed_entry u)) × All (OnlyUser key u) log
unfolding perform_all
confirmed_for_good [] s key u is = (is, tt)
confirmed_for_good ((now, request) ∷ requests) s key u is =
    let step = step-confirmed now request s key u is in
    let rest = confirmed_for_good requests (perform now request s).1 key u step.0 in
    (rest.0, (step.1, rest.1))

-- Until its deadline a hold of `u` keeps all other users out: their requests on the seat fail, and
-- the entry stays as it is.
pub hold_excludes_rivals :
    (requests : List (ℤ × SeatRequest)) (s : Store) (key u : String) (d : ℤ)
    → lookup key s ≡ some (held_entry u d)
    → All (IsRival key u d) requests
    → let (log, s') = perform_all requests s in
      (lookup key s' ≡ some (held_entry u d)) × All (Fails key) log
unfolding perform_all
hold_excludes_rivals [] s key u d is rivals = (is, tt)
hold_excludes_rivals ((now, request) ∷ requests) s key u d is rivals =
    let step = step-held now request s key u d rivals.0 is in
    let rest = hold_excludes_rivals requests (perform now request s).1 key u d step.0 rivals.1 in
    (rest.0, (step.1, rest.1))
