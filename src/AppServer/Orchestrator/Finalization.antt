-- ===== src/AppServer/Orchestrator/Finalization.antt =====
-- app_server/service.py: the loop of `_finalize_confirmed_seat`.
use krafton_week.Prelude.{ℕ, zero, suc, String, ◌≡◌, refl, Bool, true, false, Option, none, some}
use krafton_week.Effects.{err}
use krafton_week.Effects.Triples.{
  Triple, Ends, Triple-bind, Triple-pure, Triple-raise, Triple-handle, Triple-before,
}
use krafton_week.AppServer.Clients.{
  AppServerError, SeatCommandResult, upstream, not_found, conflict, other_exception,
}
use krafton_week.AppServer.Orchestrator.{TicketingOrchestratorService, App, Action}
use krafton_week.AppServer.Orchestrator.Calls.{Triple-call, Triple-trace}
use krafton_week.AppServer.Orchestrator.Steps.{
  check_confirmed, after_attempt, is_confirmed_for, unexpected_state, finalize_attempts,
  finalize_confirmed_seat, redis_confirm_retry_attempts,
}

-- What the attempts lead to, where each goes from `P (suc n)` to `P n`, with `Q` if it confirms.
module _ {S : Type 0} (self : TicketingOrchestratorService S) (e t u : String) (P : ℕ → S → Type 0)
    (Q X : S → Type 0) where
  abbrev pub Attempts : Type 0
  Attempts =
      (n : ℕ) (s : S)
      → P (suc n) s
      → Ends (λ r s'. P n s' × (is_confirmed_for r u ≡ true → Q s')) (λ _ s'. P n s')
          (self.redis.force_confirm_seat e t u s)

  abbrev Confirmed : SeatCommandResult → App S → Type 0
  Confirmed r w = (is_confirmed_for r u ≡ true) × Q w.services

  abbrev Failed : AppServerError → App S → Type 0
  Failed _ w = X w.services

  abbrev Retry : ℕ → (AppServerError → Action S SeatCommandResult) → Type 0
  Retry n retry =
      (x : AppServerError) → Triple (λ (w : App S). P n w.services) (retry x) Confirmed Failed

  module _ (gives_up : (n : ℕ) (s : S) → P n s → X s) where
    check_confirmed-Triple :
        (n : ℕ) (b : Bool) (r : SeatCommandResult)
        (retry : AppServerError → Action S SeatCommandResult)
        → is_confirmed_for r u ≡ b
        → Retry n retry
        → Triple
            (λ (w : App S). P n w.services × (is_confirmed_for r u ≡ true → Q w.services))
            (check_confirmed self b r e t u retry)
            Confirmed
            Failed
    check_confirmed-Triple n true r retry is k =
        Triple-bind _ _
          (Triple-trace self (λ s. P n s × (is_confirmed_for r u ≡ true → Q s)) Failed _ _ _ _ _ _ _
            _)
          (λ _. Triple-pure r (λ w p. (is, p.1 is)))
    check_confirmed-Triple n false r retry is k =
        Triple-before
          (Triple-bind _ _ (Triple-trace self (P n) Failed _ _ _ _ _ _ _ _)
            (λ _. k unexpected_state))
          (λ w p. p.0)

    after_error-Triple :
        (n : ℕ) (x : AppServerError) (retry : AppServerError → Action S SeatCommandResult)
        → Retry n retry
        → Triple
            (λ (w : App S). P n w.services)
            (after_attempt self (err x) e t u retry)
            Confirmed
            Failed
    after_error-Triple n (upstream m) retry k =
        Triple-bind _ _ (Triple-trace self (P n) Failed _ _ _ _ _ _ _ _) (λ _. k (upstream m))
    after_error-Triple n (not_found m) retry k = Triple-raise _ (λ w p. gives_up n w.services p)
    after_error-Triple n (conflict m) retry k = Triple-raise _ (λ w p. gives_up n w.services p)
    after_error-Triple n (other_exception m) retry k =
        Triple-raise _ (λ w p. gives_up n w.services p)

    finalize_attempts-Triple :
        Attempts
        → (n : ℕ) (last : Option AppServerError)
        → Triple
            (λ (w : App S). P n w.services)
            (finalize_attempts self n last e t u)
            Confirmed
            Failed
    unfolding finalize_attempts
    finalize_attempts-Triple step zero last = Triple-raise _ (λ w p. gives_up zero w.services p)
    finalize_attempts-Triple step (suc n) last =
        let again = λ (x : AppServerError). finalize_attempts self n (some x) e t u in
        let retry = λ (x : AppServerError). finalize_attempts-Triple step n (some x) in
        let fails : AppServerError → App S → Type 0 = λ _ w. P n w.services in
        Triple-handle _ (λ r. after_attempt self r e t u again)
          (Triple-bind _ _ (Triple-trace self (P (suc n)) fails _ _ _ _ _ _ _ _) (λ _.
            Triple-call (λ r s. P n s × (is_confirmed_for r u ≡ true → Q s)) (λ _ s. P n s)
              (self.redis.force_confirm_seat e t u) (step n)))
          (λ r. check_confirmed-Triple n (is_confirmed_for r u) r again refl retry)
          (λ x. after_error-Triple n x again retry)

    pub finalize_confirmed_seat-Triple :
        Attempts
        → Triple
            (λ (w : App S). P redis_confirm_retry_attempts w.services)
            (finalize_confirmed_seat self e t u)
            Confirmed
            Failed
    unfolding finalize_confirmed_seat
    finalize_confirmed_seat-Triple step =
        finalize_attempts-Triple step redis_confirm_retry_attempts none
