-- ===== src/Tests/Sales.antt =====
-- app_server/service.py: runs that sell the seat.
use krafton_week.Prelude.{◌≡◌, some, [], pos, ◌+ℤ◌, ◌*ℤ◌}
use krafton_week.Effects.{Result}
use krafton_week.Tests.Outcomes.{IsOk, value_of, returns-value_of}
use krafton_week.Dict.{lookup, insert}
use krafton_week.Storage.Engine.{purge_if_expired}
use krafton_week.Storage.Seats
use krafton_week.Storage.Seats.{
  seat_key, serialize_seat_record, deserialize_seat_record, held_entry, confirmed_entry,
}
use krafton_week.Ticketing.Schema.{text_leb}
use krafton_week.Ticketing.Service
use krafton_week.Ticketing.Service.{World}
use krafton_week.Ticketing.Payments.{IsSale}
use krafton_week.AppServer.Services.{Services, orchestrator}
use krafton_week.AppServer.Clients.{AppServerError}
use krafton_week.AppServer.Orchestrator.{App, trace, find_event_seat, get_event_seat}
use krafton_week.AppServer.Orchestrator.Steps.{
  build_mock_payment, finalize_attempts, finalize_confirmed_seat,
}
use krafton_week.Ticketing.Repository
use krafton_week.Ticketing.Repository.{payment_of}
use krafton_week.Ticketing.Workflows
use krafton_week.Ticketing.Tables.{find, any, update, order_by}
use krafton_week.Json.{dumps, loads, get_field}
use krafton_week.AppServer.Orchestrator.Reservations.{
  ConfirmReply, PurchaseReply, purchase_seat, hold_reservation, create_or_release, payment_request,
  check_held, pay_and_confirm, finish_confirmation, confirm_reservation,
}
use krafton_week.AppServer.Sales.{confirm_reservation_sells, purchase_seat_sells}
use krafton_week.Storage.Ttl.{compute_deadline, second}
use krafton_week.Tests.Shows.{setting, app, holding}

-- What a request returns and leaves.
abbrev confirmation : Result AppServerError ConfirmReply × App Services
confirmation = confirm_reservation (orchestrator setting) "r1" "show" "A1" "ann" holding

confirmation-IsOk : IsOk confirmation
unfolding confirm_reservation find_event_seat get_event_seat check_held pay_and_confirm
    finish_confirmation build_mock_payment finalize_confirmed_seat finalize_attempts trace
    Service.list_event_seats Service.expire_stale Service.require_event Service.require_reservation
    Workflows.confirm_reservation Repository.expire_stale_reservations
    Repository.has_confirmed_reservation Repository.get_reservation Repository.find_reservation
    Repository.confirm_reservation Repository.upsert_payment Repository.set_confirmed payment_of
    find any update text_leb Seats.seat_status_by_key Seats.force_confirm_seat
    deserialize_seat_record serialize_seat_record order_by purge_if_expired seat_key lookup insert
    dumps loads get_field
confirmation-IsOk = tt

confirm_reservation_sells_example :
    let reply = value_of confirmation confirmation-IsOk in
    let services = confirmation.1.services in
    (lookup (seat_key "show" "A1") services.store ≡ some (confirmed_entry "ann"))
    × IsSale services.world.db "r1" (payment_request reply.payment) (some reply.reservation)
confirm_reservation_sells_example =
    confirm_reservation_sells setting "r1" "show" "A1" "ann" holding confirmation.1
      (value_of confirmation confirmation-IsOk) (returns-value_of confirmation confirmation-IsOk)

abbrev purchase : Result AppServerError PurchaseReply × App Services
purchase = purchase_seat (orchestrator setting) "show" "A1" "ann" (pos 30) (app [] [])

purchase-IsOk : IsOk purchase
unfolding purchase_seat hold_reservation create_or_release second Workflows.create_held_reservation
    Repository.create_held_reservation Repository.get_seat Repository.get_user Service.ensure_user
    Service.require_seat Seats.reserve_seat compute_deadline ◌+ℤ◌ ◌*ℤ◌ confirm_reservation
    find_event_seat get_event_seat check_held pay_and_confirm finish_confirmation build_mock_payment
    finalize_confirmed_seat finalize_attempts trace Service.list_event_seats Service.expire_stale
    Service.require_event Service.require_reservation Workflows.confirm_reservation
    Repository.expire_stale_reservations Repository.has_confirmed_reservation
    Repository.get_reservation Repository.find_reservation Repository.confirm_reservation
    Repository.upsert_payment Repository.set_confirmed payment_of find any update text_leb
    Seats.seat_status_by_key Seats.force_confirm_seat deserialize_seat_record serialize_seat_record
    order_by purge_if_expired seat_key lookup insert dumps loads get_field
purchase-IsOk = tt

purchase_seat_sells_example :
    let bought = (value_of purchase purchase-IsOk).confirmed in
    let services = purchase.1.services in
    (lookup (seat_key "show" "A1") services.store ≡ some (confirmed_entry "ann"))
    × IsSale services.world.db bought.reservation.reservation.reservation_id
        (payment_request bought.payment)
        (some bought.reservation)
purchase_seat_sells_example =
    purchase_seat_sells setting "show" "A1" "ann" (pos 30) (app [] []) purchase.1
      (value_of purchase purchase-IsOk) (returns-value_of purchase purchase-IsOk)
