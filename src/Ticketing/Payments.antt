-- ===== src/Ticketing/Payments.antt =====
-- ticketing_api/: the payment that a confirmation leaves, and what `confirm_reservation` replies.
use krafton_week.Prelude.{
  ℕ, ◌+◌, String, ◌≡◌, refl, sym, ◌∙◌, ap, true, Bool-cases, Option-cases, inl, inr, Option, none,
  some, ◌==◌, eq_iff, eq_refl, arith, ℤ,
}
use krafton_week.Effects.{Result, ok, err, ◌>>=◌, ◌>>◌}
use krafton_week.Ticketing.Schema.{
  Payment, Reservation, Database, ReservationRow, ConfirmReservationRequest, ReservationStatus,
  held, confirmed, cancelled, expired, succeeded, is_confirmed,
}
use krafton_week.Ticketing.Tables.{any, update}
use krafton_week.Ticketing.Tables.Finds.{find-update, find-append, find_fits, find-none, find-some}
use krafton_week.Ticketing.Repository
use krafton_week.Ticketing.Repository.{PaymentPayload, and_then, payment_of, has_id, confirm_row}
use krafton_week.Ticketing.Service
use krafton_week.Ticketing.Service.{
  Error, World, Action, ask, commit, conflict, seat_already_confirmed,
}
use krafton_week.Ticketing.Workflows
use krafton_week.Ticketing.Lifecycle.Rows.{find_reservation-update, its_id}
use krafton_week.Ticketing.Lifecycle.Sale.{set_confirmed-after_payment}
use krafton_week.Ticketing.Lifecycle.Methods.{require_reservation-reads}

-- The payment has what the payload gives.
abbrev Pays : PaymentPayload → Payment → Type 0
Pays p q =
    (q.payment_id ≡ p.payment_id)
    × (q.status ≡ p.payment_status)
    × (q.amount ≡ p.amount)
    × (q.provider ≡ p.provider)
    × (q.provider_ref ≡ p.provider_ref)

-- An upsert leaves one payment of the reservation that is found, with what it was given.
upsert_payment-payment_of :
    (p : PaymentPayload) (i now : String) (db db' : Database)
    → Repository.upsert_payment p i now db ≡ some db'
    → (q : Payment) × (payment_of i db' ≡ some q) × Pays p q
unfolding Repository.upsert_payment payment_of
upsert_payment-payment_of p i now db db' h =
    elim (Bool-cases (any (λ (q : Payment). q.reservation_id == i) db.payments)) [
      | inl e ↦
          let (old, found) = find-some (λ (q : Payment). q.reservation_id == i) db.payments e in
          (
            Repository.replace_payment p now old,
            ground (
              arith,
              find-update (λ (q : Payment). q.reservation_id == i)
                  (λ (q : Payment). q.reservation_id == i) (Repository.replace_payment p now)
                  db.payments (λ x. refl),
              found,
              find_fits (λ (q : Payment). q.reservation_id == i) db.payments old found,
            ),
            (refl, refl, refl, refl, refl),
          )
      | inr e ↦ (
        Repository.new_payment p i now,
        ground (
          arith,
          find-append (λ (q : Payment). q.reservation_id == i) db.payments
              (Repository.new_payment p i now),
          find-none (λ (q : Payment). q.reservation_id == i) db.payments e,
          eq_refl i,
        ),
        (refl, refl, refl, refl, refl),
      )
    ]

set_confirmed-payment_of :
    (i now : String) (db db' : Database)
    → Repository.set_confirmed i now db ≡ some db'
    → payment_of i db' ≡ payment_of i db
unfolding Repository.set_confirmed payment_of
set_confirmed-payment_of i now db db' h = ground arith

-- The statement that confirms leaves the payments, and finds the row confirmed.
confirmed-payment_of :
    (p : PaymentPayload) (i now : String) (db db' : Database)
    → and_then (Repository.upsert_payment p i now db) (Repository.set_confirmed i now) ≡ some db'
    → (q : Payment) × (payment_of i db' ≡ some q) × Pays p q
unfolding Repository.set_confirmed payment_of
confirmed-payment_of p i now db db' h = elim (Option-cases (Repository.upsert_payment p i now db)) [
  | inl e ↦ absurd (ground arith)
  | inr (db₁, e) ↦
      let (q, found, pays) = upsert_payment-payment_of p i now db db₁ e in
      (q, set_confirmed-payment_of i now db₁ db' (ground arith) ∙ found, pays)
]

-- What a `do` block returned, its first step has returned.
module _ {A B : Type 0} where
  after-inversion :
      (f : A → Action B) (x : Result Error A × World) (w w' : World) (b : B)
      → ((λ (_ : World). x) >>= f) w ≡ (ok b, w')
      → (a : A) × (w₁ : World) × (x ≡ (ok a, w₁)) × (f a w₁ ≡ (ok b, w'))
  after-inversion f (ok a, w₁) w w' b h = (a, w₁, refl, h)
  after-inversion f (err e, w₁) w w' b h = absurd cc

  bind-inversion :
      (m : Action A) (f : A → Action B) (w w' : World) (b : B)
      → (m >>= f) w ≡ (ok b, w')
      → (a : A) × (w₁ : World) × (m w ≡ (ok a, w₁)) × (f a w₁ ≡ (ok b, w'))
  bind-inversion m f w w' b h = after-inversion f (m w) w w' b h

commit-inversion :
    {A : Type 0} (o : Option Database) (e : Error) (g : Database → A) (w w' : World) (a : A)
    → (commit o e >> ask g) w ≡ (ok a, w')
    → (o ≡ some w'.db) × (g w'.db ≡ a)
commit-inversion none e g w w' a h = absurd cc
commit-inversion {A} (some db') e g w w' a h =
    let same = ap (λ (x : Result Error A × World). x.1.db) h in
    (ap (λ (x : Database). some x) same, ap g (sym same) ∙ ground arith)

-- The row that a reply shows is the stored one, confirmed and paid as the request says.
abbrev pub IsSale : Database → String → ConfirmReservationRequest → Option ReservationRow → Type 0
IsSale db i request reply =
    (row : ReservationRow) × (reply ≡ some row)
    × (Repository.get_reservation i db ≡ some row)
    × (is_confirmed row.reservation.status ≡ true)
    × (Workflows.payment_matches row.payment request ≡ true)

stored_row :
    (i : String) (db : Database) (r : Reservation) (q : Payment)
    → Repository.find_reservation i db ≡ some r
    → payment_of i db ≡ some q
    → Repository.get_reservation i db ≡ some (record { reservation = r; payment = some q })
unfolding Repository.get_reservation
stored_row i db r q found paid = ground (arith, its_id i db r found)

pub found_row :
    (i : String) (db : Database) (row : ReservationRow)
    → Repository.get_reservation i db ≡ some row
    → Repository.find_reservation i db ≡ some row.reservation
unfolding Repository.get_reservation
found_row i db row h = ground arith

confirmed_row :
    (i now : String) (db db' : Database) (r : Reservation)
    → Repository.find_reservation i db ≡ some r
    → db'.reservations ≡ update (has_id i) (confirm_row now) db.reservations
    → Repository.find_reservation i db' ≡ some (confirm_row now r)
confirmed_row i now db db' r found is =
    let own = its_id i db r found in
    let eq = find_reservation-update (has_id i) (confirm_row now) db db' (λ x. refl, is) i in
    ground (arith, eq, found, own, eq_iff r.reservation_id i)

eqb_ℤ_refl : (a : ℤ) → Workflows.eqb_ℤ a a ≡ true
eqb_ℤ_refl a = ground arith

Pays-payment_matches :
    (request : ConfirmReservationRequest) (q : Payment)
    → q.payment_id ≡ request.payment_id
    → q.status ≡ succeeded
    → q.amount ≡ request.amount
    → q.provider ≡ request.provider
    → q.provider_ref ≡ request.provider_ref
    → Workflows.payment_matches (some q) request ≡ true
Pays-payment_matches request q pi ps pa pp pr =
    rw
      (
        pi,
        ps,
        pa,
        pp,
        pr,
        eq_refl request.payment_id,
        eqb_ℤ_refl request.amount,
        eq_refl request.provider,
        eq_refl request.provider_ref,
        Workflows.payment_matches,
      )
      refl

confirm_held-IsSale :
    (now i : String) (request : ConfirmReservationRequest) (row : ReservationRow)
    (db db' : Database) (reply : Option ReservationRow)
    → Repository.get_reservation i db ≡ some row
    → (Repository.confirm_reservation i request.payment_id request.amount request.provider
          request.provider_ref now db
        ≡ some db')
      × (Repository.get_reservation i db' ≡ reply)
    → IsSale db' i request reply
unfolding Repository.confirm_reservation
confirm_held-IsSale now i request row db db' reply found h =
    let p : PaymentPayload = record {
      payment_id = request.payment_id;
      payment_status = succeeded;
      amount = request.amount;
      provider = request.provider;
      provider_ref = request.provider_ref;
    } in
    let r = row.reservation in
    let (q, paid, pays) = confirmed-payment_of p i now db db' h.0 in
    let done = set_confirmed-after_payment p i now db db' r (found_row i db row found) h.0 in
    let stored =
      stored_row i db' (confirm_row now r) q
        (confirmed_row i now db db' r (found_row i db row found) done.1) paid in
    (
      record { reservation = confirm_row now r; payment = some q },
      sym h.1 ∙ stored,
      stored,
      refl,
      Pays-payment_matches request q pays.0 pays.1 pays.2 pays.3 pays.4,
    )

module _ (clock : ℕ → String) where
  confirm_from-IsSale :
      (status : ReservationStatus) (i : String) (request : ConfirmReservationRequest)
      (row : ReservationRow) (w w' : World) (reply : Option ReservationRow)
      → row.reservation.status ≡ status
      → Repository.get_reservation i w.db ≡ some row
      → Workflows.confirm_from clock status i request row w ≡ (ok reply, w')
      → IsSale w'.db i request reply
  confirm_from-IsSale confirmed i request row w w' reply is found h =
      elim (Bool-cases (Workflows.payment_matches row.payment request)) [
        | inl e ↦ (row, ground arith, ground arith, ap is_confirmed is, e)
        | inr e ↦ absurd (ground arith)
      ]
  confirm_from-IsSale held i request row w w' reply is found h =
      confirm_held-IsSale (clock w.reads) i request row w.db w'.db reply found (
        commit-inversion
          (Repository.confirm_reservation i request.payment_id request.amount request.provider
            request.provider_ref (clock w.reads) w.db)
          (conflict seat_already_confirmed) (Repository.get_reservation i)
          (record w { reads = w.reads + 1 }) w' reply h)
  confirm_from-IsSale cancelled i request row w w' reply is found h = absurd cc
  confirm_from-IsSale expired i request row w w' reply is found h = absurd cc

-- Where a confirmation returns, its reply is the stored reservation, which is confirmed and has a
-- payment that succeeded with the request's id, amount, provider and reference.
pub confirm_reservation_replies :
    (clock : ℕ → String) (i : String) (request : ConfirmReservationRequest) (w w' : World)
    (reply : Option ReservationRow)
    → Workflows.confirm_reservation clock i request w ≡ (ok reply, w')
    → IsSale w'.db i request reply
unfolding Workflows.confirm_reservation
confirm_reservation_replies clock i request w w' reply h =
    let (row, w₁, first, rest) =
      bind-inversion (Service.require_reservation clock i)
        (λ row. Workflows.confirm_from clock row.reservation.status i request row) w w' reply h in
    confirm_from-IsSale clock row.reservation.status i request row w₁ w' reply refl
      (require_reservation-reads clock i w w₁ row first) rest
