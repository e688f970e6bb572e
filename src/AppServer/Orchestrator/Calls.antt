-- ===== src/AppServer/Orchestrator/Calls.antt =====
-- app_server/service.py: before and after the steps of a request, as far as the services go. A trace
-- and a use of the library leave the services as they are.
use krafton_week.Prelude.{String, Option, List, [], ◌∷◌, Bool-cases, inl, inr, ◌==◌}
use krafton_week.Effects.{Result, ok, err, Exec}
use krafton_week.Effects.Triples.{Triple, Ends, Triple-pure, Triple-raise}
use krafton_week.Ticketing.Repository.{SeatRow}
use krafton_week.AppServer.Clients.{AppServerError}
use krafton_week.AppServer.Orchestrator.{TicketingOrchestratorService, App, call, trace, seat_of}

module _ {S : Type 0} where
  module _ {A : Type 0} (Q : A → S → Type 0) (X : AppServerError → S → Type 0) where
    Ends-call :
        (x : Result AppServerError A × S) (w : App S)
        → Ends Q X x
        → Ends
            (λ a (w' : App S). Q a w'.services)
            (λ e (w' : App S). X e w'.services)
            (x.0, record w { services = x.1 })
    Ends-call (ok a, s) w is = is
    Ends-call (err e, s) w is = is

    pub Triple-call :
        {P : S → Type 0} (m : Exec AppServerError S A)
        → ((s : S) → P s → Ends Q X (m s))
        → Triple
            (λ (w : App S). P w.services)
            (call m)
            (λ a w. Q a w.services)
            (λ e w. X e w.services)
    Triple-call {P} m h = record { at = λ w p. Ends-call (m w.services) w (h w.services p) }

  pub Triple-seat_of :
      (P : S → Type 0) (e t : String) (rows : List SeatRow)
      → Triple
          (λ (w : App S). P w.services)
          (seat_of e t rows)
          (λ _ w. P w.services)
          (λ _ w. P w.services)
  Triple-seat_of P e t [] = Triple-raise _ (λ w p. p)
  Triple-seat_of P e t (row ∷ rows) = elim (Bool-cases (row.seat.seat_id == t)) [
    | inl y ↦ rw y (Triple-pure row (λ w p. p))
    | inr n ↦ rw n (Triple-seat_of P e t rows)
  ]

pub Triple-trace :
    {S : Type 0} (self : TicketingOrchestratorService S) (P : S → Type 0)
    (X : AppServerError → App S → Type 0) (source target action status : String)
    (e t u detail : Option String)
    → Triple
        (λ (w : App S). P w.services)
        (trace self source target action status e t u detail)
        (λ _ w. P w.services)
        X
unfolding trace
Triple-trace self P X source target action status e t u detail = record { at = λ w p. p }
