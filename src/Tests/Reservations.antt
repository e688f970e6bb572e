-- ===== src/Tests/Reservations.antt =====
-- ticketing_api/: a database with a sold seat and a held one, and requests to it.
use krafton_week.Prelude.{
  true, false, ℕ, String, ◌≡◌, refl, none, some, List, [], ◌∷◌, eq_iff, arith, pos, if◌then◌else◌,
}
use krafton_week.Effects.{ok, err}
use krafton_week.Ticketing.Schema.{
  Reservation, Payment, ReservationRow, ReservationStatus, held, confirmed, cancelled,
  ConfirmReservationRequest, CancelReservationRequest, succeeded, text_leb, is_cancelled,
}
use krafton_week.Ticketing.Tables.{find, any, update}
use krafton_week.Ticketing.Repository
use krafton_week.Ticketing.Service
use krafton_week.Ticketing.Service.{World}
use krafton_week.Ticketing.Workflows
use krafton_week.Ticketing.Lifecycle.{IsSoldOnce}
use krafton_week.Ticketing.Lifecycle.Runs.{
  Request, list_request, user_request, confirm_request, cancel_request, expire_request,
  expire_stale_request, serve_all, no_double_sale,
}
use krafton_week.Ticketing.Lifecycle.Overlaps.{
  State, idle, Event, arrives, goes_on, sweeps, confirm_call, cancel_call, all_happen,
}
use krafton_week.Ticketing.Lifecycle.Overlaps.Safety.{settled_for_good}
use krafton_week.Ticketing.Lifecycle.Overlaps.Sold.{never_sold_twice}
use krafton_week.Ticketing.Payments.{IsSale, confirm_reservation_replies}
use krafton_week.Ticketing.Repeats.{freshened, confirm_twice, cancel_again}

abbrev clock : ℕ → String
clock n = "2024-05-01T10:00:00+00:00"

abbrev of_status : String → String → String → ReservationStatus → Reservation
of_status i seat_id user_id status = record {
  reservation_id = i;
  event_id = "show";
  seat_id = seat_id;
  user_id = user_id;
  status = status;
  hold_token = some i;
  expires_at = some "2024-05-01T10:05:00+00:00";
  created_at = "2024-05-01T09:59:00+00:00";
  updated_at = "2024-05-01T09:59:00+00:00";
  confirmed_at = none;
  cancelled_at = none;
}

abbrev sold : Reservation
sold = of_status "r1" "A1" "ann" confirmed

abbrev waiting : Reservation
waiting = of_status "r2" "A1" "bob" held

abbrev dropped : Reservation
dropped = of_status "r3" "B2" "bob" cancelled

abbrev paid : Payment
paid = record {
  payment_id = "p1";
  reservation_id = "r1";
  status = succeeded;
  amount = pos 100;
  provider = "card";
  provider_ref = "x";
  created_at = "2024-05-01T09:59:30+00:00";
  updated_at = "2024-05-01T09:59:30+00:00";
}

abbrev start : World
start = record {
  db = record {
    events = [];
    users = [];
    seats = [];
    reservations = sold ∷ waiting ∷ dropped ∷ [];
    payments = paid ∷ [];
  };
  reads = 0;
}

abbrev payment : ConfirmReservationRequest
payment = record { payment_id = "p1"; amount = pos 100; provider = "card"; provider_ref = "x" }

abbrev no_payment : CancelReservationRequest
no_payment = record {
  payment_id = none;
  payment_status = none;
  amount = none;
  provider = none;
  provider_ref = none;
}

abbrev requests : List Request
requests =
    user_request "ann"
    ∷ confirm_request "r2" payment
    ∷ cancel_request "r1" no_payment
    ∷ expire_request "r2"
    ∷ expire_stale_request 10
    ∷ list_request "show"
    ∷ []

start-IsSoldOnce : IsSoldOnce start.db
unfolding Repository.find_reservation find
start-IsSoldOnce i j r q fr fq cr cq same_event same_seat = ground (
  arith,
  eq_iff "r1" i,
  eq_iff "r2" i,
  eq_iff "r3" i,
  eq_iff "r1" j,
  eq_iff "r2" j,
  eq_iff "r3" j,
)

no_double_sale_example : IsSoldOnce (serve_all clock requests start).db
no_double_sale_example = no_double_sale clock requests start start-IsSoldOnce

-- A cancellation reads the reservation "r2" as held, and goes on after another has been decided.
abbrev quiet : State
quiet = record { world = start; stages = λ n. idle }

abbrev overlapping : List Event
overlapping =
    arrives 0 (cancel_call "r2" no_payment)
    ∷ arrives 1 (confirm_call "r1" payment)
    ∷ goes_on 0
    ∷ goes_on 1
    ∷ sweeps
    ∷ goes_on 1
    ∷ goes_on 0
    ∷ []

never_sold_twice_example : IsSoldOnce (all_happen clock overlapping quiet).world.db
never_sold_twice_example = never_sold_twice clock overlapping quiet start-IsSoldOnce

settled_for_good_example :
    Repository.find_reservation "r1" (all_happen clock overlapping quiet).world.db ≡ some sold
unfolding Repository.find_reservation find
settled_for_good_example = settled_for_good clock overlapping quiet "r1" sold refl refl (λ n. tt)

cancel_again_example : Workflows.cancel_reservation clock "r3" no_payment start ≡ (
  (if is_cancelled cancelled
      then ok (some (record { reservation = dropped; payment = none }))
      else err (Service.conflict Service.cannot_transition)),
  freshened clock start,
)
unfolding Repository.get_reservation Repository.find_reservation Repository.payment_of find
cancel_again_example =
    cancel_again clock "r3" no_payment start (record { reservation = dropped; payment = none }) refl
      refl

-- A reservation that is held, with the seat free.
abbrev free : World
free = record {
  db = record { events = []; users = []; seats = []; reservations = waiting ∷ []; payments = [] };
  reads = 0;
}

abbrev bought : ReservationRow
bought = record {
  reservation = Repository.confirm_row (clock 0) waiting;
  payment = some (record {
    payment_id = "p1";
    reservation_id = "r2";
    status = succeeded;
    amount = pos 100;
    provider = "card";
    provider_ref = "x";
    created_at = clock 0;
    updated_at = clock 0;
  });
}

confirm_reservation_replies_example :
    IsSale (Workflows.confirm_reservation clock "r2" payment free).1.db "r2" payment (some bought)
unfolding Workflows.confirm_reservation Service.require_reservation Service.expire_stale
    Repository.expire_stale_reservations Repository.get_reservation Repository.find_reservation
    Repository.payment_of Repository.confirm_reservation Repository.upsert_payment
    Repository.set_confirmed find any update text_leb
confirm_reservation_replies_example =
    confirm_reservation_replies clock "r2" payment free
      (Workflows.confirm_reservation clock "r2" payment free).1 (some bought) refl

abbrev after_sale : World
after_sale = (Workflows.confirm_reservation clock "r2" payment free).1

abbrev second_payment : ConfirmReservationRequest
second_payment = record {
  payment_id = "p2";
  amount = pos 100;
  provider = "card";
  provider_ref = "x";
}

confirm_twice_example :
    (Workflows.confirm_reservation clock "r2" payment after_sale
      ≡ (ok (some bought), freshened clock after_sale))
    × (Workflows.confirm_reservation clock "r2" second_payment after_sale
        ≡ (err (Service.conflict Service.different_payment), freshened clock after_sale))
unfolding Workflows.confirm_reservation Service.require_reservation Service.expire_stale
    Repository.expire_stale_reservations Repository.get_reservation Repository.find_reservation
    Repository.payment_of Repository.confirm_reservation Repository.upsert_payment
    Repository.set_confirmed find any update text_leb
confirm_twice_example =
    confirm_twice clock "r2" payment second_payment free after_sale (some bought) refl
      (λ p. let same : false ≡ true = (eq_iff "p2" "p1").1 p in cc)
