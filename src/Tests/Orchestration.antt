-- ===== src/Tests/Orchestration.antt =====
-- app_server/service.py: runs that give a seat back, the log, and the attempts of a confirmation.
use krafton_week.Prelude.{
  ℕ, ◌⊎◌, ◌≡◌, refl, none, some, pos, negsuc, ◌+◌, ◌≤◌, true, arith, eqb, if◌then◌else◌,
}
use krafton_week.Effects.{Result, ok, err}
use krafton_week.Tests.Outcomes.{IsOk, value_of, returns-value_of}
use krafton_week.Dict.{lookup, insert, erase}
use krafton_week.Storage.Engine.{purge_if_expired}
use krafton_week.Storage.Seats
use krafton_week.Storage.Seats.{
  seat_key, serialize_seat_record, deserialize_seat_record, held_entry, confirmed_entry,
}
use krafton_week.Ticketing.Schema.{HeldReservationCreate, text_leb}
use krafton_week.Ticketing.Service
use krafton_week.Ticketing.Service.{World}
use krafton_week.AppServer.Services.{
  Services, Fate, answered, lost_request, orchestrator, orchestrator_over,
}
use krafton_week.AppServer.Clients.{AppServerError, SeatCommandResult, upstream, conflict}
use krafton_week.AppServer.Orchestrator.{
  TicketingOrchestratorService, App, trace, find_event_seat, get_event_seat,
}
use krafton_week.AppServer.Orchestrator.Steps.{
  is_confirmed_for, safe_release, finalize_confirmed_seat,
}
use krafton_week.Ticketing.Repository
use krafton_week.Ticketing.Repository.{payment_of}
use krafton_week.Ticketing.Workflows
use krafton_week.Ticketing.Tables.{find, any, update, order_by}
use krafton_week.Json.{dumps, loads, get_field}
use krafton_week.AppServer.Orchestrator.Reservations.{
  CancelReply, create_or_release, cancel_reservation,
}
use krafton_week.AppServer.Refusals.Losses.{IsLost}
use krafton_week.AppServer.Refusals.{cancelled_hold_is_released, refused_hold_is_released}
use krafton_week.AppServer.Orchestrator.Attempts.{finalization_ends, finalization_succeeds}
use krafton_week.Tests.Shows.{clock, setting, holding}

-- The connection fails at the second command.
abbrev fate : ℕ → Fate
fate n = if eqb n 1 then lost_request "down" else answered

abbrev cancellation : Result AppServerError CancelReply × App Services
cancellation = cancel_reservation (orchestrator_over fate setting) "r1" "show" "A1" "ann" holding

cancellation-IsOk : IsOk cancellation
unfolding cancel_reservation safe_release find_event_seat get_event_seat trace
    Service.list_event_seats Service.expire_stale Service.require_event Service.require_reservation
    Workflows.cancel_reservation Repository.cancel_reservation Repository.set_cancelled
    Repository.expire_stale_reservations Repository.has_confirmed_reservation
    Repository.get_reservation Repository.find_reservation Seats.release_seat payment_of find any
    update text_leb Seats.seat_status_by_key deserialize_seat_record serialize_seat_record order_by
    purge_if_expired seat_key lookup insert erase dumps loads get_field
cancellation-IsOk = tt

cancelled_hold_is_released_example :
    (lookup (seat_key "show" "A1") cancellation.1.services.store ≡ none)
    ⊎ IsLost fate 0 cancellation.1.services
unfolding lookup seat_key
cancelled_hold_is_released_example =
    cancelled_hold_is_released fate setting "show" "A1" "ann" (pos 30000) "r1" holding
      cancellation.1 (value_of cancellation cancellation-IsOk) refl
      (returns-value_of cancellation cancellation-IsOk)

-- The id of a reservation that is there already, with another token.
abbrev taken : HeldReservationCreate
taken = record {
  reservation_id = "r1";
  event_id = "show";
  seat_id = "A1";
  user_id = "ann";
  hold_token = "other";
  expires_at = clock 0;
}

refused_hold_is_released_example :
    let (r, w') = create_or_release (orchestrator_over fate setting) taken holding in
    (r ≡ err (conflict "detail"))
    × ((lookup (seat_key "show" "A1") w'.services.store ≡ none) ⊎ IsLost fate 0 w'.services)
unfolding lookup seat_key Workflows.create_held_reservation Service.expire_stale
    Service.require_event find Repository.expire_stale_reservations Service.require_seat
    Repository.get_seat Service.ensure_user Repository.get_user Repository.get_reservation
    Repository.find_reservation update text_leb
refused_hold_is_released_example =
    refused_hold_is_released fate setting taken (pos 30000) holding (conflict "detail")
      ((orchestrator setting).db.create_held_reservation taken holding.services).1 refl refl

finalization_ends_example :
    let (r, w) = finalize_confirmed_seat (orchestrator setting) "show" "A1" "ann" holding in
    (w.services.ticks ≤ holding.services.ticks + 3)
    × ((a : SeatCommandResult) → r ≡ ok a → is_confirmed_for a "ann" ≡ true)
finalization_ends_example =
    finalization_ends (orchestrator setting) "show" "A1" "ann" (λ s. s.ticks) (λ s. omega arith)
      holding

-- An engine that is down at its first command.
abbrev flaky : TicketingOrchestratorService Services
flaky = record (orchestrator setting) {
  redis = record (orchestrator setting).redis {
    force_confirm_seat = λ e t u s.
        if eqb s.ticks 0
        then (err (upstream "down"), record s { ticks = s.ticks + 1 })
        else (orchestrator setting).redis.force_confirm_seat e t u s;
  };
}

abbrev confirmed_ann : SeatCommandResult
confirmed_ann = record { success = true; state = "CONFIRMED"; user_id = some "ann"; ttl = negsuc 0 }

abbrev second_try : Services
second_try =
    ((orchestrator setting).redis.force_confirm_seat "show" "A1" "ann"
      (record holding.services { ticks = 1 })).1

finalization_succeeds_example :
    let (x, w) = finalize_confirmed_seat flaky "show" "A1" "ann" holding in
    (x ≡ ok confirmed_ann) × (w.services ≡ second_try)
unfolding Seats.force_confirm_seat
finalization_succeeds_example =
    finalization_succeeds flaky "show" "A1" "ann" 1 holding confirmed_ann second_try
      (tt, (refl, refl)) (omega arith)
