-- ===== src/Ticketing/Lifecycle/Runs.antt =====
-- Any sequence of requests to ticketing_api/service.py, each served before the next one begins. Requests
-- that overlap are in Overlaps.
use krafton_week.Prelude.{ℕ, String, List, [], ◌∷◌}
use krafton_week.Ticketing.Schema.{
  HeldReservationCreate, ConfirmReservationRequest, CancelReservationRequest,
}
use krafton_week.Ticketing.Service
use krafton_week.Ticketing.Service.{World}
use krafton_week.Ticketing.Workflows
use krafton_week.Ticketing.Lifecycle.{IsLawful, IsSoldOnce, IsLawful-refl, IsLawful-trans}
use krafton_week.Ticketing.Lifecycle.Methods.{
  confirm_reservation-kept, cancel_reservation-kept, expire_reservation-kept,
}
use krafton_week.Ticketing.Lifecycle.Creation.{
  list_event_seats-kept, list_user_reservations-kept, list_confirmed_seats-kept,
  create_held_reservation-kept, expire_stale_reservations-kept,
}

-- The requests that can write: the lists expire holds, too.
pub data Request : Type 0 where
  list_request user_request sold_request : String → Request
  create_request : HeldReservationCreate → Request
  confirm_request : String → ConfirmReservationRequest → Request
  cancel_request : String → CancelReservationRequest → Request
  expire_request : String → Request
  expire_stale_request : ℕ → Request

module _ (clock : ℕ → String) where
  -- What a request leaves, whatever it replies.
  serve : Request → World → World
  serve (list_request event_id) w = (Service.list_event_seats clock event_id w).1
  serve (user_request user_id) w = (Workflows.list_user_reservations clock user_id w).1
  serve (sold_request event_id) w = (Workflows.list_confirmed_seats clock event_id w).1
  serve (create_request q) w = (Workflows.create_held_reservation clock q w).1
  serve (confirm_request i q) w = (Workflows.confirm_reservation clock i q w).1
  serve (cancel_request i q) w = (Workflows.cancel_reservation clock i q w).1
  serve (expire_request i) w = (Workflows.expire_reservation clock i w).1
  serve (expire_stale_request limit) w = (Workflows.expire_stale_reservations clock limit w).1

  pub serve_all : List Request → World → World
  serve_all [] w = w
  serve_all (request ∷ requests) w = serve_all requests (serve request w)

  serve-IsLawful : (request : Request) (w : World) → IsLawful w.db (serve request w).db
  unfolding serve
  serve-IsLawful (list_request event_id) w = list_event_seats-kept clock event_id w
  serve-IsLawful (user_request user_id) w = list_user_reservations-kept clock user_id w
  serve-IsLawful (sold_request event_id) w = list_confirmed_seats-kept clock event_id w
  serve-IsLawful (create_request q) w = create_held_reservation-kept clock q w
  serve-IsLawful (confirm_request i q) w = confirm_reservation-kept clock i q w
  serve-IsLawful (cancel_request i q) w = cancel_reservation-kept clock i q w
  serve-IsLawful (expire_request i) w = expire_reservation-kept clock i w
  serve-IsLawful (expire_stale_request limit) w = expire_stale_reservations-kept clock limit w

  serve_all-IsLawful :
      (requests : List Request) (w : World) → IsLawful w.db (serve_all requests w).db
  unfolding serve_all
  serve_all-IsLawful [] w = IsLawful-refl w.db
  serve_all-IsLawful (request ∷ requests) w =
      IsLawful-trans w.db (serve request w).db (serve_all requests (serve request w)).db
        (serve-IsLawful request w) (serve_all-IsLawful requests (serve request w))

-- Whatever is requested, in any order and with any clock, one request after the other: where no two reservations have sold the
-- same seat, none have afterwards.
pub no_double_sale :
    (clock : ℕ → String) (requests : List Request) (w : World)
    → IsSoldOnce w.db
    → IsSoldOnce (serve_all clock requests w).db
no_double_sale clock requests w once = (serve_all-IsLawful clock requests w).sold_once once
