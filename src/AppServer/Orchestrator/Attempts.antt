-- ===== src/AppServer/Orchestrator/Attempts.antt =====
-- app_server/service.py: how many attempts `_finalize_confirmed_seat` makes, and when one is enough.
use krafton_week.Prelude.{
  ℕ, zero, suc, ◌+◌, ◌≤◌, ◌<◌, String, ◌≡◌, refl, sym, subst, true, false, Option, none, some,
  arith, ◌∙◌, ap,
}
use krafton_week.Effects.{Result, ok, err, handle}
use krafton_week.Effects.Triples.{Ends}
use krafton_week.AppServer.Clients.{AppServerError, SeatCommandResult, upstream}
use krafton_week.AppServer.Orchestrator.{TicketingOrchestratorService, App, Action, trace}
use krafton_week.AppServer.Orchestrator.Steps.{
  attempt_confirm, after_attempt, is_confirmed_for, unexpected_state, finalize_attempts,
  finalize_confirmed_seat,
}
use krafton_week.AppServer.Orchestrator.Finalization.{finalize_confirmed_seat-Triple}

module _ {S : Type 0} (self : TicketingOrchestratorService S) (e t u : String) where
  -- Of a counter of the engine's confirmations: each attempt left may add one.
  module _ (count : S → ℕ) (c : ℕ) where
    abbrev IsLeft : ℕ → S → Type 0
    IsLeft n s = count s + n ≡ c + 3

    abbrev IsWithin : S → Type 0
    IsWithin s = count s ≤ c + 3

    counted :
        (n : ℕ) (x : Result AppServerError SeatCommandResult × S)
        → count x.1 + n ≡ c + 3
        → Ends
            (λ r s'. IsLeft n s' × (is_confirmed_for r u ≡ true → IsWithin s'))
            (λ _ s'. IsLeft n s')
            x
    counted n (ok r, s) h = (h, λ _. omega (arith, h))
    counted n (err x, s) h = h

    ended :
        (x : Result AppServerError SeatCommandResult × App S)
        → Ends
            (λ r w. (is_confirmed_for r u ≡ true) × IsWithin w.services)
            (λ _ w. IsWithin w.services)
            x
        → IsWithin x.1.services
          × ((a : SeatCommandResult) → x.0 ≡ ok a → is_confirmed_for a u ≡ true)
    ended (ok r, w) h = (h.1, λ a is. ground (arith, h.0))
    ended (err x, w) h = (h, λ a is. absurd cc)

  -- The finalization ends after at most three calls of the engine's FORCE_CONFIRM_SEAT, whatever they
  -- reply or raise, where each call adds one to a count of the services' state; and it returns only a
  -- result that is confirmed for the user.
  pub finalization_ends :
      (count : S → ℕ)
      → ((s : S) → count (self.redis.force_confirm_seat e t u s).1 ≡ suc (count s))
      → (w : App S)
      → let (r, w') = finalize_confirmed_seat self e t u w in
        (count w'.services ≤ count w.services + 3)
        × ((a : SeatCommandResult) → r ≡ ok a → is_confirmed_for a u ≡ true)
  finalization_ends count once w =
      let c = count w.services in
      let done =
        finalize_confirmed_seat-Triple self e t u (IsLeft count c) (IsWithin count c)
          (IsWithin count c) (λ n s h. omega (arith, h))
          (λ n s h.
            counted count c n (self.redis.force_confirm_seat e t u s) (omega (arith, once s, h))) in
      ended count c (finalize_confirmed_seat self e t u w) (done.at w refl)

  -- The engine fails an attempt in a way that is tried again.
  abbrev IsRetried : Result AppServerError SeatCommandResult → Type 0
  IsRetried (ok r) = is_confirmed_for r u ≡ false
  IsRetried (err (upstream m)) = Unit
  IsRetried (err x) = ⊥

  -- The services confirm the seat after so many attempts that are tried again.
  abbrev ConfirmsAfter : ℕ → S → SeatCommandResult → S → Type 0
  ConfirmsAfter zero s r s' =
      (self.redis.force_confirm_seat e t u s ≡ (ok r, s')) × (is_confirmed_for r u ≡ true)
  ConfirmsAfter (suc n) s r s' =
      let (x, s₁) = self.redis.force_confirm_seat e t u s in IsRetried x × ConfirmsAfter n s₁ r s'

  abbrev Returns : Result AppServerError SeatCommandResult × App S → SeatCommandResult → S → Type 0
  Returns x r s' = (x.0 ≡ ok r) × (x.1.services ≡ s')

  confirmed-Returns :
      (r : SeatCommandResult) (w : App S) (retry : AppServerError → Action S SeatCommandResult)
      (x : Result AppServerError SeatCommandResult) (s' : S)
      → x ≡ ok r
      → is_confirmed_for r u ≡ true
      → w.services ≡ s'
      → Returns (after_attempt self x e t u retry w) r s'
  unfolding trace
  confirmed-Returns r w retry x s' is conf at = rw (is, after_attempt, conf) (refl, at)

  retried-Returns :
      (x : Result AppServerError SeatCommandResult) (w : App S)
      (retry : AppServerError → Action S SeatCommandResult) (r : SeatCommandResult) (s' : S)
      → IsRetried x
      → ((y : AppServerError) (w₁ : App S) → w₁.services ≡ w.services → Returns (retry y w₁) r s')
      → Returns (after_attempt self x e t u retry w) r s'
  unfolding trace
  retried-Returns (ok a) w retry r s' is k = rw is (k unexpected_state _ refl)
  retried-Returns (err (upstream m)) w retry r s' is k = k (upstream m) _ refl
  retried-Returns (err x) w retry r s' is k = absurd is

  -- What follows an attempt, which traces and calls.
  attempt_then :
      (k : Result AppServerError SeatCommandResult → Action S SeatCommandResult) (w : App S)
      (r : SeatCommandResult) (s' : S)
      → ((w₁ : App S)
          → w₁.services ≡ (self.redis.force_confirm_seat e t u w.services).1
          → Returns (k (self.redis.force_confirm_seat e t u w.services).0 w₁) r s')
      → Returns (handle (attempt_confirm self e t u) k w) r s'
  unfolding trace
  attempt_then k w r s' h = h _ refl

  attempts_return :
      (n k : ℕ) (last : Option AppServerError) (w : App S) (r : SeatCommandResult) (s' : S)
      → ConfirmsAfter n w.services r s'
      → n < k
      → Returns (finalize_attempts self k last e t u w) r s'
  unfolding finalize_attempts
  attempts_return n zero last w r s' h lt = absurd (omega (arith, lt))
  attempts_return zero (suc k) last w r s' h lt =
      let again = λ (x : AppServerError). finalize_attempts self k (some x) e t u in
      attempt_then (λ x. after_attempt self x e t u again) w r s'
        (λ w₁ at.
          confirmed-Returns r w₁ again _ s'
            (ap (λ (x : Result AppServerError SeatCommandResult × S). x.0) h.0) h.1
            (at ∙ ap (λ (x : Result AppServerError SeatCommandResult × S). x.1) h.0))
  attempts_return (suc n) (suc k) last w r s' h lt =
      let again = λ (x : AppServerError). finalize_attempts self k (some x) e t u in
      attempt_then (λ x. after_attempt self x e t u again) w r s'
        (λ w₁ at. retried-Returns _ w₁ again r s' h.0 (λ y w₂ at₂.
          attempts_return n k (some y) w₂ r s'
            (subst (λ (s : S). ConfirmsAfter n s r s') (sym (at₂ ∙ at)) h.1) (omega (arith, lt))))

  -- An engine that confirms the seat after none, one or two attempts that fail in a way that is tried
  -- again is waited for: the finalization returns its result, and leaves the services as its call did.
  pub finalization_succeeds :
      (n : ℕ) (w : App S) (r : SeatCommandResult) (s' : S)
      → ConfirmsAfter n w.services r s'
      → n < 3
      → let (x, w') = finalize_confirmed_seat self e t u w in (x ≡ ok r) × (w'.services ≡ s')
  unfolding finalize_confirmed_seat
  finalization_succeeds n w r s' h lt = attempts_return n 3 none w r s' h lt
