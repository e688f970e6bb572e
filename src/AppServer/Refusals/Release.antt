-- ===== src/AppServer/Refusals/Release.antt =====
-- app_server/service.py: the steps that give a hold back, over a connection to the engine that may fail.
use krafton_week.Prelude.{
  ℕ, ◌+◌, ◌≤◌, String, ◌≡◌, refl, sym, subst, true, false, Bool, none, some, ℤ, arith, ◌⊎◌, inl,
  inr,
}
use krafton_week.Effects.{Result, ok, err}
use krafton_week.Effects.Triples.{
  Triple, Ends, Ends-same, Whatever, Triple-bind, Triple-pure, Triple-before, Triple-weaken,
  Triple-on_exception,
}
use krafton_week.Dict.{lookup}
use krafton_week.Errors
use krafton_week.Storage.Engine.{Store}
use krafton_week.Storage.Seats.{
  SeatStatus, seat_key, seat_held, held_entry, is_seat_of, seat_status,
}
use krafton_week.Storage.Seats.Holds.{
  seat_status_by_key-held, seat_status_by_key-free, release_seat-held,
}
use krafton_week.AppServer.Clients.{AppServerError}
use krafton_week.AppServer.Services.{
  Services, Setting, Fate, answered, repeated, lost_request, lost_reply, lost_again, through,
  orchestrator, orchestrator_over, engine_reply,
}
use krafton_week.AppServer.Orchestrator.{
  TicketingOrchestratorService, App, find_event_seat, get_event_seat,
}
use krafton_week.AppServer.Orchestrator.Steps.{release_held, safe_release}
use krafton_week.AppServer.Orchestrator.Calls.{Triple-call, Triple-trace, Triple-seat_of}
use krafton_week.AppServer.Refusals.Losses.{IsLost, later-IsLost, through-later, through-IsLost}

module _ (fate : ℕ → Fate) (since : ℕ) (g : Setting) (e t u : String) (d : ℤ) where
  abbrev pub self : TicketingOrchestratorService Services
  self = orchestrator_over fate g

  -- The user's hold is in the engine; the seat has no entry; or a command has been lost.
  abbrev pub IsHolding : Services → Type 0
  IsHolding s =
      ((lookup (seat_key e t) s.store ≡ some (held_entry u d)) × (since ≤ s.ticks))
      ⊎ IsLost fate since s

  abbrev pub IsFree : Services → Type 0
  IsFree s = (lookup (seat_key e t) s.store ≡ none) ⊎ IsLost fate since s

  abbrev pub Freed : {A : Type 0} → A → App Services → Type 0
  Freed _ w = IsFree w.services

  abbrev Never : {A : Type 0} → A → App Services → Type 0
  Never _ w = ⊥

  -- What the status that is told says of the entry.
  abbrev Seen : SeatStatus → Services → Type 0
  Seen status s =
      (is_seat_of status seat_held u ≡ true → IsHolding s)
      × (is_seat_of status seat_held u ≡ false → IsFree s)

  -- Where each value of `Q` is allowed once a command has been lost.
  module _ {A : Type 0} (Q : A → Services → Type 0)
      (anything : (a : A) (s : Services) → IsLost fate since s → Q a s)
      (m : Services → Result AppServerError A × Services)
      (next : (s : Services) → (m s).1.ticks ≡ s.ticks + 1) where
    lost-Ends :
        (x : Result AppServerError A × Services) → IsLost fate since x.1 → Ends Q (λ _. IsFree) x
    lost-Ends (ok a, s) lost = anything a s lost
    lost-Ends (err y, s) lost = inr lost

    through-Ends :
        (f : Fate) (s : Services)
        → fate s.ticks ≡ f
        → since ≤ s.ticks
        → Ends Q (λ _. IsFree) (m s)
        → Ends Q (λ _. IsFree) (through f m s)
    through-Ends answered s is le h = h
    through-Ends repeated s is le h =
        lost-Ends (through repeated m s)
          (through-IsLost fate since m next repeated s is (λ p. cc) le)
    through-Ends (lost_request message) s is le h =
        inr (through-IsLost fate since m next (lost_request message) s is (λ p. cc) le)
    through-Ends (lost_reply message) s is le h =
        inr (through-IsLost fate since m next (lost_reply message) s is (λ p. cc) le)
    through-Ends (lost_again message) s is le h =
        inr (through-IsLost fate since m next (lost_again message) s is (λ p. cc) le)

    after_loss-Ends :
        (f : Fate) (s : Services) → IsLost fate since s → Ends Q (λ _. IsFree) (through f m s)
    after_loss-Ends f s lost =
        let next_one = through-later fate since m next f s in
        lost-Ends (through f m s)
          (later-IsLost fate since s (through f m s).1 (omega (arith, next_one)) lost)

  seen :
      (x : Result Errors.Error SeatStatus × Store) (s : Services) (status : SeatStatus)
      → since ≤ s.ticks
      → x.0 ≡ ok status
      → (is_seat_of status seat_held u ≡ true → lookup (seat_key e t) x.1 ≡ some (held_entry u d))
      → (is_seat_of status seat_held u ≡ false → lookup (seat_key e t) x.1 ≡ none)
      → Ends Seen
          (λ _. IsFree)
          (
            engine_reply g.message (λ (status : SeatStatus). status) x.0,
            record s { store = x.1; ticks = s.ticks + 1 },
          )
  seen (ok other, store) s status le is stays goes =
      let same : other ≡ status = cc in
      subst (λ (x : SeatStatus). Seen x (record s { store = store; ticks = s.ticks + 1 }))
        (sym same) ((λ h. inl (stays h, omega arith)), (λ h. inl (goes h)))
  seen (err x, store) s status le is stays goes = absurd cc

  lost-Seen : (status : SeatStatus) (s : Services) → IsLost fate since s → Seen status s
  lost-Seen status s lost = ((λ h. inr lost), (λ h. inr lost))

  seat_status-Seen :
      (s : Services) → IsHolding s → Ends Seen (λ _. IsFree) (self.redis.seat_status e t s)
  seat_status-Seen s (inl (is, le)) =
      let (status, told, stays, goes) =
        seat_status_by_key-held (g.now s.ticks) (seat_key e t) u d s.store is in
      through-Ends Seen lost-Seen ((orchestrator g).redis.seat_status e t) (λ s. refl)
        (fate s.ticks) s refl le
        (seen (seat_status (g.now s.ticks) e t s.store) s status le told stays goes)
  seat_status-Seen s (inr lost) =
      after_loss-Ends Seen lost-Seen ((orchestrator g).redis.seat_status e t) (λ s. refl)
        (fate s.ticks) s lost

  release_seat-frees :
      (s : Services)
      → IsHolding s
      → Ends (λ _. IsFree) (λ _. IsFree) (self.redis.release_seat e t u s)
  release_seat-frees s (inl (is, le)) =
      through-Ends (λ _. IsFree) (λ _ s lost. inr lost) ((orchestrator g).redis.release_seat e t u)
        (λ s. refl) (fate s.ticks) s refl le
        (Ends-same IsFree _ _ (inl (release_seat-held (g.now s.ticks) e t u d s.store is)))
  release_seat-frees s (inr lost) =
      after_loss-Ends (λ _. IsFree) (λ _ s lost. inr lost)
        ((orchestrator g).redis.release_seat e t u) (λ s. refl) (fate s.ticks) s lost

  ends :
      {A : Type 0} (r : Result AppServerError A) (s : Services)
      → IsFree s
      → Ends (λ _. IsFree) (λ _ _. Unit) (r, s)
  ends (ok a) s is = is
  ends (err y) s is = tt

  read-IsFree : (s : Services) → IsFree s → IsFree ((orchestrator g).redis.seat_status e t s).1
  read-IsFree s (inl is) = inl (seat_status_by_key-free (g.now s.ticks) (seat_key e t) s.store is)
  read-IsFree s (inr lost) =
      inr
        (later-IsLost fate since s ((orchestrator g).redis.seat_status e t s).1 (omega arith) lost)

  through-IsFree :
      (f : Fate) (s : Services)
      → IsFree s
      → Ends (λ _. IsFree) (λ _ _. Unit) (through f ((orchestrator g).redis.seat_status e t) s)
  through-IsFree answered s is =
      ends ((orchestrator g).redis.seat_status e t s).0 ((orchestrator g).redis.seat_status e t s).1
        (read-IsFree s is)
  through-IsFree repeated s is =
      let s₁ = ((orchestrator g).redis.seat_status e t s).1 in
      ends ((orchestrator g).redis.seat_status e t s₁).0
        ((orchestrator g).redis.seat_status e t s₁).1 (read-IsFree s₁ (read-IsFree s is))
  through-IsFree (lost_request message) s is = tt
  through-IsFree (lost_reply message) s is = tt
  through-IsFree (lost_again message) s is = tt

  release_held-frees :
      (b : Bool) (status : SeatStatus)
      → is_seat_of status seat_held u ≡ b
      → Triple
          (λ (w : App Services). Seen status w.services)
          (release_held self b status e t u)
          Freed
          Freed
  release_held-frees true status is =
      Triple-bind _ _
        (Triple-before
          (Triple-call (λ _. IsFree) (λ _. IsFree) {P = IsHolding} (self.redis.release_seat e t u)
            release_seat-frees)
          (λ w p. p.0 is))
        (λ r. Triple-trace self IsFree Freed _ _ _ _ _ _ _ _)
  release_held-frees false status is =
      Triple-before (Triple-trace self IsFree Freed _ _ _ _ _ _ _ _) (λ w p. p.1 is)

  pub safe_release-frees :
      Triple (λ (w : App Services). IsHolding w.services) (safe_release self e t u) Freed Never
  unfolding safe_release
  safe_release-frees =
      Triple-on_exception _ _
        (Triple-bind _ _ (Triple-trace self IsHolding Freed _ _ _ _ _ _ _ _) (λ _.
          Triple-bind _ _
            (Triple-call Seen (λ _. IsFree) (self.redis.seat_status e t) seat_status-Seen)
            (λ status. release_held-frees (is_seat_of status seat_held u) status refl)))
        (λ x. Triple-trace self IsFree Never _ _ _ _ _ _ _ _)

  pub get_event_seat-frees :
      Triple (λ (w : App Services). IsFree w.services) (get_event_seat self e t) Freed Whatever
  unfolding get_event_seat find_event_seat
  get_event_seat-frees =
      Triple-bind _ _
        (Triple-bind _ _
          (Triple-weaken
            (Triple-call (λ _. IsFree) (λ _. IsFree) (self.db.list_event_seats e)
              (λ s h. Ends-same IsFree _ _ h))
            (λ _ w p. p) (λ _ w p. tt))
          (λ rows. Triple-weaken (Triple-seat_of IsFree e t rows) (λ _ w p. p) (λ _ w p. tt)))
        (λ seat.
          Triple-bind _ _
            (Triple-call (λ _. IsFree) (λ _ _. Unit) (self.redis.seat_status e t)
              (λ s h. through-IsFree (fate s.ticks) s h))
            (λ status. Triple-pure _ (λ w p. p)))
