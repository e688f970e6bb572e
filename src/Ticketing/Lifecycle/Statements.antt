-- ===== src/Ticketing/Lifecycle/Statements.antt =====
-- ticketing_api/repository.py: each statement on the reservations is lawful.
use krafton_week.Prelude.{String, ◌≡◌, refl, ◌∙◌, ap, true, Option, none, some, arith, ℤ}
use krafton_week.Ticketing.Schema.{Reservation, Database, is_held, held, succeeded}
use krafton_week.Ticketing.Repository
use krafton_week.Ticketing.Repository.{
  and_then, PaymentPayload, is_stale, has_id, is_rival, expire_row, confirm_row, cancel_row,
}
use krafton_week.Ticketing.Lifecycle.{expires, confirms, cancels, IsLawful}
use krafton_week.Ticketing.Lifecycle.Rows.{
  update-Evolves, update-IsLawful, same-IsLawful, its_row, append-IsLawful,
}
use krafton_week.Ticketing.Lifecycle.Sale.{
  cancel_reservation-reservations, set_confirmed-after_payment, confirmed-IsSoldOnce,
}

pub expire_stale-IsLawful :
    (now : String) (db : Database) → IsLawful db (Repository.expire_stale_reservations now db).1
unfolding Repository.expire_stale_reservations
expire_stale-IsLawful now db =
    update-IsLawful (is_stale now) (expire_row now) db
      (Repository.expire_stale_reservations now db).1 (λ x. refl, refl)
      (λ i x found stale. expires (ground arith) now refl) (λ x. refl)

pub create_user-IsLawful :
    (user_id display_name email now : String) (db : Database)
    → IsLawful db (Repository.create_user user_id display_name email now db)
unfolding Repository.create_user
create_user-IsLawful user_id display_name email now db =
    same-IsLawful db (Repository.create_user user_id display_name email now db) (ground arith)

-- The one row that `WHERE reservation_id = ?` changes is held.
module _ (i : String) (db : Database) (r : Reservation)
    (found : Repository.find_reservation i db ≡ some r) (is : is_held r.status ≡ true) where
  pub expire_reservation-IsLawful :
      (now : String) → IsLawful db (Repository.expire_reservation i now db)
  unfolding Repository.expire_reservation
  expire_reservation-IsLawful now =
      update-IsLawful (has_id i) (expire_row now) db (Repository.expire_reservation i now db)
        (λ x. refl, refl)
        (λ j x fx e.
          expires (ap (λ (y : Reservation). is_held y.status) (its_row i db r found j x fx e) ∙ is)
            now refl)
        (λ x. refl)

  pub cancel_reservation-IsLawful :
      (now : String) (p : Option PaymentPayload) (db' : Database)
      → Repository.cancel_reservation i now p db ≡ some db'
      → IsLawful db db'
  cancel_reservation-IsLawful now p db' h =
      update-IsLawful (has_id i) (cancel_row now) db db'
        (λ x. refl, cancel_reservation-reservations i now p db db' h)
        (λ j x fx e.
          cancels (ap (λ (y : Reservation). is_held y.status) (its_row i db r found j x fx e) ∙ is)
            now refl)
        (λ x. refl)

  pub confirm_reservation-IsLawful :
      (payment_id : String) (amount : ℤ) (provider provider_ref now : String) (db' : Database)
      → Repository.confirm_reservation i payment_id amount provider provider_ref now db ≡ some db'
      → IsLawful db db'
  unfolding Repository.confirm_reservation
  confirm_reservation-IsLawful payment_id amount provider provider_ref now db' h =
      let done =
        set_confirmed-after_payment
          (record {
            payment_id = payment_id;
            payment_status = succeeded;
            amount = amount;
            provider = provider;
            provider_ref = provider_ref;
          })
          i now db db' r found h in
      record {
        evolves =
            update-Evolves (has_id i) (confirm_row now) db db' (λ x. refl, done.1)
              (λ j x fx e.
                confirms
                  (ap (λ (y : Reservation). is_held y.status) (its_row i db r found j x fx e) ∙ is)
                  now refl);
        sold_once = confirmed-IsSoldOnce i now db db' r found done.0 done.1;
      }

pub create_held-IsLawful :
    (reservation_id event_id seat_id user_id hold_token expires_at now : String) (db db' : Database)
    → Repository.create_held_reservation reservation_id event_id seat_id user_id hold_token
        expires_at now db
      ≡ some db'
    → IsLawful db db'
unfolding Repository.create_held_reservation
create_held-IsLawful reservation_id event_id seat_id user_id hold_token expires_at now db db' h =
    append-IsLawful
      (record {
        reservation_id = reservation_id;
        event_id = event_id;
        seat_id = seat_id;
        user_id = user_id;
        status = held;
        hold_token = some hold_token;
        expires_at = some expires_at;
        created_at = now;
        updated_at = now;
        confirmed_at = none;
        cancelled_at = none;
      })
      db db' (ground arith) refl
