-- ===== src/Commands/Handler/SeatRequests.antt =====
-- commands/handler.py: the tokens of a seat request reach the engine's method with its arguments.
use krafton_week.Prelude.{String, ◌≡◌, ap, Bool, Bool-cases, inl, inr, List, [], ◌∷◌, ℤ, pos, leb_ℤ}
use krafton_week.Effects.{Result, ok, err, pure, ◌>>=◌}
use krafton_week.Errors.{Error}
use krafton_week.Text.{print_int, parse_int-print_int}
use krafton_week.Storage.Engine.{Store}
use krafton_week.Storage.Seats.{SeatStatus}
use krafton_week.Storage.Seats.Requests.{
  SeatRequest, reserve_request, confirm_request, release_request, perform, reserve_seat_refused,
}
use krafton_week.Commands.Handler.{
  CommandResult, handle_command, engine_storage, seat_operation_result,
}

-- The tokens that a client sends.
abbrev pub tokens_of : SeatRequest → List String
tokens_of (reserve_request e t u secs) = "RESERVE_SEAT" ∷ e ∷ t ∷ u ∷ print_int secs ∷ []
tokens_of (confirm_request e t u) = "CONFIRM_SEAT" ∷ e ∷ t ∷ u ∷ []
tokens_of (release_request e t u) = "RELEASE_SEAT" ∷ e ∷ t ∷ u ∷ []

-- The method's outcome, as the handler passes it on.
abbrev shown : Result Error (Bool × SeatStatus) × Store → Result Error CommandResult × Store
shown p = ((λ (_ : Store). p) >>= λ a. pure (seat_operation_result a)) p.1

clash :
    {A : Type 0} {p : Result Error A × Store} {e : Error} {s s' : Store} {a : A}
    → p ≡ (err e, s)
    → p ≡ (ok a, s')
    → ⊥
clash h k = cc

module _ (now : ℤ) (s s' : Store) (x : Bool × SeatStatus) where
  pub handle_command-perform :
      (request : SeatRequest)
      → perform now request s ≡ (ok x, s')
      → handle_command (engine_storage now) (tokens_of request) s
        ≡ (ok (seat_operation_result x), s')
  unfolding handle_command perform
  handle_command-perform (reserve_request e t u secs) h = elim (Bool-cases (leb_ℤ secs (pos 0))) [
    | inl refused ↦ absurd (clash (reserve_seat_refused now e t u secs s refused) h)
    | inr positive ↦ rw (parse_int-print_int secs, positive) (ap shown h)
  ]
  handle_command-perform (confirm_request e t u) h = ap shown h
  handle_command-perform (release_request e t u) h = ap shown h
