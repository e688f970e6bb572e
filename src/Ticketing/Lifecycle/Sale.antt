-- ===== src/Ticketing/Lifecycle/Sale.antt =====
-- ticketing_api/repository.py: the confirmation of a reservation, against the unique index on confirmed
-- seats, and the payment that is written with it.
use krafton_week.Prelude.{
  String, ◌≡◌, refl, sym, ◌∙◌, ap, true, false, Bool-cases, Option-cases, inl, inr, ◌⊎◌, Option,
  none, some, ◌==◌, eq_iff, arith,
}
use krafton_week.Ticketing.Schema.{Reservation, Database, is_confirmed}
use krafton_week.Ticketing.Tables.{any, update}
use krafton_week.Ticketing.Tables.Finds.{any_none}
use krafton_week.Ticketing.Repository
use krafton_week.Ticketing.Repository.{
  and_then, PaymentPayload, is_stale, has_id, is_rival, expire_row, confirm_row, cancel_row,
}
use krafton_week.Ticketing.Lifecycle.{IsSoldOnce}
use krafton_week.Ticketing.Lifecycle.Rows.{find_reservation-update, find_same, its_id, its_row}

pub upsert_payment-reservations :
    (p : PaymentPayload) (i now : String) (db db' : Database)
    → Repository.upsert_payment p i now db ≡ some db'
    → db'.reservations ≡ db.reservations
unfolding Repository.upsert_payment
upsert_payment-reservations p i now db db' h = ground arith

pub cancel_reservation-reservations :
    (i now : String) (p : Option PaymentPayload) (db db' : Database)
    → Repository.cancel_reservation i now p db ≡ some db'
    → db'.reservations ≡ update (has_id i) (cancel_row now) db.reservations
unfolding Repository.cancel_reservation Repository.set_cancelled
cancel_reservation-reservations i now none db db' h = ground arith
cancel_reservation-reservations i now (some p) db db' h =
    elim (Option-cases (Repository.upsert_payment p i now db)) [
      | inl e ↦ absurd (ground arith)
      | inr (db₁, e) ↦ ground (arith, upsert_payment-reservations p i now db db₁ e)
    ]

-- The row is found in the database that the statement reads, and no confirmed one is its rival.
set_confirmed-reservations :
    (i now : String) (db db' : Database) (r : Reservation)
    → Repository.find_reservation i db ≡ some r
    → Repository.set_confirmed i now db ≡ some db'
    → (any (is_rival r) db.reservations ≡ false)
      × (db'.reservations ≡ update (has_id i) (confirm_row now) db.reservations)
unfolding Repository.set_confirmed
set_confirmed-reservations i now db db' r found h =
    elim (Bool-cases (any (is_rival r) db.reservations)) [
      | inl e ↦ absurd (ground arith)
      | inr e ↦ (e, ground arith)
    ]

pub set_confirmed-after_payment :
    (p : PaymentPayload) (i now : String) (db db' : Database) (r : Reservation)
    → Repository.find_reservation i db ≡ some r
    → and_then (Repository.upsert_payment p i now db) (Repository.set_confirmed i now) ≡ some db'
    → (any (is_rival r) db.reservations ≡ false)
      × (db'.reservations ≡ update (has_id i) (confirm_row now) db.reservations)
set_confirmed-after_payment p i now db db' r found h =
    elim (Option-cases (Repository.upsert_payment p i now db)) [
      | inl e ↦ absurd (ground arith)
      | inr (db₁, e) ↦
          let same = upsert_payment-reservations p i now db db₁ e in
          let step =
            set_confirmed-reservations i now db₁ db' r (find_same db db₁ same i ∙ found)
              (ground arith) in
          (
            sym (ap (any (is_rival r)) same) ∙ step.0,
            step.1 ∙ ap (update (has_id i) (confirm_row now)) same,
          )
    ]

-- A row of the database after row `i` has been confirmed: row `i` itself, or another that was there.
after_confirm :
    (i now : String) (db db' : Database) (r : Reservation)
    → Repository.find_reservation i db ≡ some r
    → db'.reservations ≡ update (has_id i) (confirm_row now) db.reservations
    → (j : String) (a : Reservation) → Repository.find_reservation j db' ≡ some a
    → ((j ≡ i) × (a ≡ confirm_row now r))
      ⊎ (((a.reservation_id == i) ≡ false) × (Repository.find_reservation j db ≡ some a))
after_confirm i now db db' r found is j a fa =
    let eq = find_reservation-update (has_id i) (confirm_row now) db db' (λ x. refl, is) j in
    elim (Option-cases (Repository.find_reservation j db)) [
      | inl e ↦ absurd (ground arith)
      | inr (x, e) ↦ elim (Bool-cases (has_id i x)) [
        | inl same ↦
            let row = its_row i db r found j x e same in
            inl (
              sym (its_id j db x e) ∙ (eq_iff x.reservation_id i).0 same,
              ground (arith, ap (confirm_row now) row),
            )
        | inr other ↦ inr (ground arith, ground arith)
      ]
    ]

no_rival :
    (db : Database) (r b : Reservation) (k : String)
    → any (is_rival r) db.reservations ≡ false
    → Repository.find_reservation k db ≡ some b
    → is_confirmed b.status ≡ true
    → r.event_id ≡ b.event_id
    → r.seat_id ≡ b.seat_id
    → b.reservation_id ≡ r.reservation_id
unfolding Repository.find_reservation
no_rival db r b k none_is fb cb same_event same_seat = ground (
  arith,
  any_none (is_rival r) (has_id k) db.reservations b none_is fb,
  eq_iff b.event_id r.event_id,
  eq_iff b.seat_id r.seat_id,
  eq_iff b.reservation_id r.reservation_id,
)

other_row :
    (i : String) (db : Database) (r b : Reservation) (k : String)
    → Repository.find_reservation i db ≡ some r
    → any (is_rival r) db.reservations ≡ false
    → Repository.find_reservation k db ≡ some b
    → is_confirmed b.status ≡ true
    → (b.reservation_id == i) ≡ false
    → r.event_id ≡ b.event_id
    → r.seat_id ≡ b.seat_id
    → ⊥
other_row i db r b k found none_is fb cb ne same_event same_seat =
    let same = no_rival db r b k none_is fb cb same_event same_seat in
    let own = its_id i db r found in ground (arith, eq_iff b.reservation_id i, same, own)

pub confirmed-IsSoldOnce :
    (i now : String) (db db' : Database) (r : Reservation)
    → Repository.find_reservation i db ≡ some r
    → any (is_rival r) db.reservations ≡ false
    → db'.reservations ≡ update (has_id i) (confirm_row now) db.reservations
    → IsSoldOnce db
    → IsSoldOnce db'
confirmed-IsSoldOnce i now db db' r found none_is is once j k a b fa fb ca cb same_event same_seat =
    elim (after_confirm i now db db' r found is j a fa) [
      | inl (ji, ar) ↦ elim (after_confirm i now db db' r found is k b fb) [
        | inl (ki, br) ↦ ji ∙ sym ki
        | inr (ne, fb') ↦ absurd (
            other_row i db r b k found none_is fb' cb ne
              (sym (ap (λ (x : Reservation). x.event_id) ar) ∙ same_event)
              (sym (ap (λ (x : Reservation). x.seat_id) ar) ∙ same_seat))
      ]
      | inr (ne, fa') ↦ elim (after_confirm i now db db' r found is k b fb) [
        | inl (ki, br) ↦ absurd (
            other_row i db r a j found none_is fa' ca ne
              (sym (ap (λ (x : Reservation). x.event_id) br) ∙ sym same_event)
              (sym (ap (λ (x : Reservation). x.seat_id) br) ∙ sym same_seat))
        | inr (ne', fb') ↦ once j k a b fa' fb' ca cb same_event same_seat
      ]
    ]
