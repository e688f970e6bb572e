-- ===== src/Ticketing/Lifecycle/Overlaps/Writes.antt =====
-- ticketing_api/service.py: what a request writes of the reservations, whatever they have become since
-- it read its own.
use krafton_week.Prelude.{
  ℕ, ◌+◌, String, ◌≡◌, refl, ◌∙◌, Bool-cases, Option-cases, inl, inr, false, Option, none, some,
  arith, ℤ,
}
use krafton_week.Effects.{Result, ok, err, lift, ◌>>=◌, ◌>>◌}
use krafton_week.Ticketing.Schema.{
  Reservation, Database, ReservationRow, ReservationStatus, held, confirmed, cancelled, expired,
  is_held, succeeded, ConfirmReservationRequest, CancelReservationRequest,
}
use krafton_week.Ticketing.Tables.{update}
use krafton_week.Ticketing.Repository
use krafton_week.Ticketing.Repository.{
  and_then, has_id, PaymentPayload, expire_row, confirm_row, cancel_row,
}
use krafton_week.Ticketing.Service
use krafton_week.Ticketing.Service.{World, Error, commit, ask, transact, integrity_error}
use krafton_week.Ticketing.Workflows
use krafton_week.Ticketing.Lifecycle.{IsSoldOnce}
use krafton_week.Ticketing.Lifecycle.Rows.{find_same, update-IsSoldOnce}
use krafton_week.Ticketing.Lifecycle.Sale.{
  upsert_payment-reservations, cancel_reservation-reservations, set_confirmed-after_payment,
  confirmed-IsSoldOnce,
}
use krafton_week.Ticketing.Lifecycle.Overlaps.{
  Call, confirm_call, cancel_call, expire_call, id_of, carry_on,
}

-- The row of an `UPDATE` of the status.
pub data IsTransition (f : Reservation → Reservation) : Type 0 where
  expires : (now : String) → f ≡ expire_row now → IsTransition f
  confirms : (now : String) → f ≡ confirm_row now → IsTransition f
  cancels : (now : String) → f ≡ cancel_row now → IsTransition f

-- Of the reservations at most the row of the id is written, and no seat comes to be sold twice.
pub data Writes (i : String) (db db' : Database) : Type 0 where
  nothing : db'.reservations ≡ db.reservations → Writes i db db'
  its_status :
      (f : Reservation → Reservation)
      → IsTransition f
      → db'.reservations ≡ update (has_id i) f db.reservations
      → (IsSoldOnce db → IsSoldOnce db')
      → Writes i db db'

confirm_reservation-Writes :
    (i payment_id : String) (amount : ℤ) (provider provider_ref now : String) (db db' : Database)
    → Repository.confirm_reservation i payment_id amount provider provider_ref now db ≡ some db'
    → Writes i db db'
unfolding Repository.confirm_reservation Repository.set_confirmed
confirm_reservation-Writes i payment_id amount provider provider_ref now db db' h =
    let p : PaymentPayload = record {
      payment_id = payment_id;
      payment_status = succeeded;
      amount = amount;
      provider = provider;
      provider_ref = provider_ref;
    } in
    elim (Option-cases (Repository.find_reservation i db)) [
      | inr (r, is) ↦
          let done = set_confirmed-after_payment p i now db db' r is h in
          its_status (confirm_row now) (confirms now refl) done.1
            (confirmed-IsSoldOnce i now db db' r is done.0 done.1)
      | inl missing ↦ elim (Option-cases (Repository.upsert_payment p i now db)) [
        | inl e ↦ absurd (ground arith)
        | inr (db₁, e) ↦
            let same = upsert_payment-reservations p i now db db₁ e in
            let gone = find_same db db₁ same i ∙ missing in nothing (ground (arith, same, gone))
      ]
    ]

commit-Writes :
    {A : Type 0} (i : String) (o : Option Database) (e : Error) (g : Database → A) (w : World)
    → ((db' : Database) → o ≡ some db' → Writes i w.db db')
    → Writes i w.db ((commit o e >> ask g) w).1.db
commit-Writes i none e g w k = nothing refl
commit-Writes i (some db') e g w k = k db' refl

lift-Writes :
    {A B : Type 0} (i : String) (r : Result Error A) (f : A → Service.Action B) (w : World)
    → ((a : A) → Writes i w.db (f a w).1.db)
    → Writes i w.db ((lift r >>= f) w).1.db
lift-Writes i (ok a) f w k = k a
lift-Writes i (err e) f w k = nothing refl

module _ (clock : ℕ → String) (w : World) (row : ReservationRow) where
  confirm_from-Writes :
      (status : ReservationStatus) (i : String) (request : ConfirmReservationRequest)
      → Writes i w.db (Workflows.confirm_from clock status i request row w).1.db
  confirm_from-Writes confirmed i request =
      elim (Bool-cases (Workflows.payment_matches row.payment request)) [
        | inl e ↦ rw (e, Workflows.confirm_from) (nothing refl)
        | inr e ↦ rw (e, Workflows.confirm_from) (nothing refl)
      ]
  confirm_from-Writes held i request =
      commit-Writes i
        (Repository.confirm_reservation i request.payment_id request.amount request.provider
          request.provider_ref (clock w.reads) w.db)
        _ (Repository.get_reservation i) (record w { reads = w.reads + 1 })
        (confirm_reservation-Writes i request.payment_id request.amount request.provider
          request.provider_ref (clock w.reads) w.db)
  confirm_from-Writes cancelled i request = nothing refl
  confirm_from-Writes expired i request = nothing refl

  cancel_from-Writes :
      (status : ReservationStatus) (i : String) (request : CancelReservationRequest)
      → Writes i w.db (Workflows.cancel_from clock status i request row w).1.db
  cancel_from-Writes held i request =
      lift-Writes i (Workflows.validate_cancel_payment_payload request)
        (Workflows.cancel_held clock i) w
        (λ payload.
          commit-Writes i (Repository.cancel_reservation i (clock w.reads) payload w.db) _
            (Repository.get_reservation i) (record w { reads = w.reads + 1 })
            (λ db' h.
              let done = cancel_reservation-reservations i (clock w.reads) payload w.db db' h in
              its_status (cancel_row (clock w.reads)) (cancels (clock w.reads) refl) done (
                update-IsSoldOnce (has_id i) (cancel_row (clock w.reads)) w.db db' (λ x. refl, done)
                  (λ x. refl))))
  cancel_from-Writes cancelled i request = nothing refl
  cancel_from-Writes confirmed i request = nothing refl
  cancel_from-Writes expired i request = nothing refl

  expire_from-Writes :
      (status : ReservationStatus) (i : String)
      → Writes i w.db (Workflows.expire_from clock status i row w).1.db
  unfolding Repository.expire_reservation
  expire_from-Writes held i =
      let now = clock w.reads in
      its_status (expire_row now) (expires now refl) refl (
        update-IsSoldOnce (has_id i) (expire_row now) w.db
          (Repository.expire_reservation i now w.db) (λ x. refl, refl) (λ x. refl))
  expire_from-Writes cancelled i = nothing refl
  expire_from-Writes confirmed i = nothing refl
  expire_from-Writes expired i = nothing refl

  pub carry_on-Writes : (call : Call) → Writes (id_of call) w.db (carry_on clock call row w).db
  carry_on-Writes (confirm_call i request) = confirm_from-Writes row.reservation.status i request
  carry_on-Writes (cancel_call i request) = cancel_from-Writes row.reservation.status i request
  carry_on-Writes (expire_call i) = expire_from-Writes row.reservation.status i

  -- A request that has read a reservation which is not held writes nothing.
  confirm_from-settled :
      (status : ReservationStatus) (i : String) (request : ConfirmReservationRequest)
      → is_held status ≡ false
      → (Workflows.confirm_from clock status i request row w).1 ≡ w
  confirm_from-settled confirmed i request over =
      elim (Bool-cases (Workflows.payment_matches row.payment request)) [
        | inl e ↦ rw (e, Workflows.confirm_from) refl
        | inr e ↦ rw (e, Workflows.confirm_from) refl
      ]
  confirm_from-settled held i request over = absurd cc
  confirm_from-settled cancelled i request over = refl
  confirm_from-settled expired i request over = refl

  cancel_from-settled :
      (status : ReservationStatus) (i : String) (request : CancelReservationRequest)
      → is_held status ≡ false
      → (Workflows.cancel_from clock status i request row w).1 ≡ w
  cancel_from-settled held i request over = absurd cc
  cancel_from-settled cancelled i request over = refl
  cancel_from-settled confirmed i request over = refl
  cancel_from-settled expired i request over = refl

  expire_from-settled :
      (status : ReservationStatus) (i : String)
      → is_held status ≡ false
      → (Workflows.expire_from clock status i row w).1 ≡ w
  expire_from-settled held i over = absurd cc
  expire_from-settled cancelled i over = refl
  expire_from-settled confirmed i over = refl
  expire_from-settled expired i over = refl

  pub carry_on-settled :
      (call : Call) → is_held row.reservation.status ≡ false → carry_on clock call row w ≡ w
  carry_on-settled (confirm_call i request) = confirm_from-settled row.reservation.status i request
  carry_on-settled (cancel_call i request) = cancel_from-settled row.reservation.status i request
  carry_on-settled (expire_call i) = expire_from-settled row.reservation.status i
