-- ===== src/AppServer/Refusals/Losses.antt =====
-- app_server/redis_client.py: commands to the engine that have not been answered at once.
use krafton_week.Prelude.{ℕ, ◌+◌, ◌≤◌, ◌<◌, ◌≡◌, ◌≢◌, sym, ◌∙◌, arith}
use krafton_week.Effects.{Result}
use krafton_week.AppServer.Clients.{AppServerError}
use krafton_week.AppServer.Services.{
  Services, Fate, answered, repeated, lost_request, lost_reply, lost_again, through,
}

module _ (fate : ℕ → Fate) (since : ℕ) where
  -- A command since the start has not been answered.
  abbrev pub IsLost : Services → Type 0
  IsLost s = (n : ℕ) × (since ≤ n) × (n < s.ticks) × (fate n ≢ answered)

  pub later-IsLost : (s s' : Services) → s.ticks ≤ s'.ticks → IsLost s → IsLost s'
  later-IsLost s s' le (n, from, before, ne) = (n, from, omega arith, ne)

  -- A command that reads the clock once.
  module _ {A : Type 0} (m : Services → Result AppServerError A × Services)
      (next : (s : Services) → (m s).1.ticks ≡ s.ticks + 1) where
    pub through-later : (f : Fate) (s : Services) → s.ticks < (through f m s).1.ticks
    through-later answered s = omega (arith, next s)
    through-later repeated s = omega (arith, next s, next (m s).1)
    through-later (lost_request message) s = omega arith
    through-later (lost_reply message) s = omega (arith, next s)
    through-later (lost_again message) s = omega (arith, next s, next (m s).1)

    pub through-IsLost :
        (f : Fate) (s : Services)
        → fate s.ticks ≡ f
        → f ≢ answered
        → since ≤ s.ticks
        → IsLost (through f m s).1
    through-IsLost f s is ne le = (s.ticks, le, through-later f s, λ p. ne (sym is ∙ p))
