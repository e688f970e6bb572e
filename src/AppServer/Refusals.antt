-- ===== src/AppServer/Refusals.antt =====
-- app_server/service.py with both services, over a connection to the engine that may fail: a hold that
-- the database refuses, and a hold that is cancelled, are given back to the engine.
pub mod Losses
pub mod Release
use krafton_week.Prelude.{
  ℕ, ◌+◌, ◌≤◌, ◌<◌, String, ◌≡◌, ◌≢◌, refl, sym, ◌∙◌, ap, subst, true, false, Bool, none, some, ℤ,
  arith, ◌⊎◌, inl, inr,
}
use krafton_week.Effects.{Result, ok, err, on_exception}
use krafton_week.Effects.Triples.{
  Triple, Ends, Ends-same, Whatever, returned, Triple-bind, Triple-pure, Triple-raise,
  Triple-before, Triple-weaken, Triple-on_exception,
}
use krafton_week.Dict.{lookup}
use krafton_week.Errors
use krafton_week.Storage.Engine.{Store}
use krafton_week.Storage.Seats.{
  SeatStatus, seat_key, seat_held, held_entry, is_seat_of, seat_status,
}
use krafton_week.Storage.Seats.Holds.{
  seat_status_by_key-held, seat_status_by_key-free, release_seat-held,
}
use krafton_week.Ticketing.Schema.{HeldReservationCreate, ReservationRow}
use krafton_week.AppServer.Clients.{AppServerError}
use krafton_week.AppServer.Services.{
  Services, Setting, Fate, answered, repeated, lost_request, lost_reply, lost_again, through,
  orchestrator, orchestrator_over, engine_reply,
}
use krafton_week.AppServer.Orchestrator.{
  TicketingOrchestratorService, App, trace, find_event_seat, get_event_seat,
}
use krafton_week.AppServer.Orchestrator.Steps.{no_payment, release_held, safe_release}
use krafton_week.AppServer.Orchestrator.Reservations.{
  CancelReply, cancel_reservation, create_or_release, give_back,
}
use krafton_week.AppServer.Orchestrator.Calls.{Triple-call, Triple-trace, Triple-seat_of}
use krafton_week.AppServer.Refusals.Losses.{IsLost}
use krafton_week.AppServer.Refusals.Release.{
  IsHolding, IsFree, Freed, safe_release-frees, get_event_seat-frees,
}

module _ (fate : ℕ → Fate) (since : ℕ) (g : Setting) (e t u : String) (d : ℤ) where
  cancel_reservation-frees :
      (i : String)
      → Triple
          (λ (w : App Services). IsHolding fate since g e t u d w.services)
          (cancel_reservation (orchestrator_over fate g) i e t u)
          (Freed fate since g e t u d)
          Whatever
  unfolding cancel_reservation
  cancel_reservation-frees i =
      let self = orchestrator_over fate g in
      let holding = IsHolding fate since g e t u d in
      Triple-bind _ _ (Triple-trace self holding Whatever _ _ _ _ _ _ _ _) (λ _.
        Triple-bind _ _
          (Triple-weaken
            (Triple-call (λ _. holding) (λ _. holding) (self.db.cancel_reservation i no_payment)
              (λ s h. Ends-same holding _ _ h))
            (λ _ w p. p) (λ _ w p. tt))
          (λ row. Triple-bind _ _ (Triple-trace self holding Whatever _ _ _ _ _ _ _ _) (λ _.
            Triple-bind _ _
              (Triple-weaken (safe_release-frees fate since g e t u d) (λ _ w p. p) (λ _ w p. tt))
              (λ _.
                Triple-bind _ _ (get_event_seat-frees fate since g e t u d)
                  (λ view. Triple-pure _ (λ w p. p))))))

-- Where the cancellation of a reservation returns and the user held the seat, over a connection to the
-- engine that may fail: the engine has no entry of the seat any more, whether the hold has ended
-- meanwhile or not, or a command to the engine has not been answered at once during the request.
pub cancelled_hold_is_released :
    (fate : ℕ → Fate) (g : Setting) (e t u : String) (d : ℤ) (i : String) (w w' : App Services)
    (reply : CancelReply)
    → lookup (seat_key e t) w.services.store ≡ some (held_entry u d)
    → cancel_reservation (orchestrator_over fate g) i e t u w ≡ (ok reply, w')
    → (lookup (seat_key e t) w'.services.store ≡ none) ⊎ IsLost fate w.services.ticks w'.services
cancelled_hold_is_released fate g e t u d i w w' reply is h =
    let since = w.services.ticks in
    returned (Freed fate since g e t u d) Whatever
      (cancel_reservation (orchestrator_over fate g) i e t u w) reply w' h
      ((cancel_reservation-frees fate since g e t u d i).at w (inl (is, omega arith)))

module _ (fate : ℕ → Fate) (since : ℕ) (g : Setting) (p : HeldReservationCreate) (d : ℤ)
    (x : AppServerError) where
  abbrev Raised : AppServerError → App Services → Type 0
  Raised y w = (y ≡ x) × IsFree fate since g p.event_id p.seat_id p.user_id d w.services

  give_back-frees :
      Triple
        (λ (w : App Services). IsHolding fate since g p.event_id p.seat_id p.user_id d w.services)
        (give_back (orchestrator_over fate g) p x)
        (λ _ _. ⊥)
        Raised
  give_back-frees =
      let holding = IsHolding fate since g p.event_id p.seat_id p.user_id d in
      Triple-bind _ _ (Triple-trace (orchestrator_over fate g) holding Raised _ _ _ _ _ _ _ _) (λ _.
        Triple-bind _ _
          (Triple-weaken (safe_release-frees fate since g p.event_id p.seat_id p.user_id d)
            (λ _ w h. h) (λ _ w h. absurd h))
          (λ _. Triple-raise x (λ w h. (refl, h))))

  only_raises :
      (r : Result AppServerError (ReservationRow × Bool) × App Services)
      → Ends (λ _ _. ⊥) Raised r
      → (r.0 ≡ err x) × IsFree fate since g p.event_id p.seat_id p.user_id d r.1.services
  only_raises (ok a, w) h = absurd h
  only_raises (err y, w) (same, free) = (ap (λ (z : AppServerError). err z) same, free)

-- Where the database refuses the reservation of a seat that the engine holds for the user, for whatever
-- reason, over a connection to the engine that may fail: the same exception goes on, and the engine has
-- no entry of the seat any more, or a command to the engine has not been answered at once meanwhile.
pub refused_hold_is_released :
    (fate : ℕ → Fate) (g : Setting) (p : HeldReservationCreate) (d : ℤ) (w : App Services)
    (x : AppServerError) (s : Services)
    → lookup (seat_key p.event_id p.seat_id) w.services.store ≡ some (held_entry p.user_id d)
    → (orchestrator_over fate g).db.create_held_reservation p w.services ≡ (err x, s)
    → let (r, w') = create_or_release (orchestrator_over fate g) p w in
      (r ≡ err x)
      × ((lookup (seat_key p.event_id p.seat_id) w'.services.store ≡ none)
          ⊎ IsLost fate w.services.ticks w'.services)
unfolding create_or_release trace
refused_hold_is_released fate g p d w x s is h =
    let self = orchestrator_over fate g in
    let since = w.services.ticks in
    let started =
      (trace self "APP" "DB" "CREATE_HELD" "START" (some p.event_id) (some p.seat_id)
        (some p.user_id) (some p.reservation_id) w).1 in
    let refused : App Services = record started { services = s } in
    let run : create_or_release self p w ≡ give_back self p x refused =
      ap
        (λ (q : Result AppServerError (ReservationRow × Bool) × Services).
          on_exception (λ (_ : App Services). (q.0, record started { services = q.1 }))
            (give_back self p) w)
        h in
    let kept : s.store ≡ w.services.store =
      sym (ap (λ (q : Result AppServerError (ReservationRow × Bool) × Services). q.1.store) h) in
    let later : s.ticks ≡ w.services.ticks =
      sym (ap (λ (q : Result AppServerError (ReservationRow × Bool) × Services). q.1.ticks) h) in
    subst
      (λ (q : Result AppServerError (ReservationRow × Bool) × App Services).
        (q.0 ≡ err x) × IsFree fate since g p.event_id p.seat_id p.user_id d q.1.services)
      (sym run)
      (only_raises fate since g p d x (give_back self p x refused) (
        (give_back-frees fate since g p d x).at refused
          (inl (ap (lookup (seat_key p.event_id p.seat_id)) kept ∙ is, omega (arith, later)))))
