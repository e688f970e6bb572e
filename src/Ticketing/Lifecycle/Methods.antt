-- ===== src/Ticketing/Lifecycle/Methods.antt =====
-- ticketing_api/service.py: each method is lawful, on every branch, whatever the clock shows.
use krafton_week.Prelude.{
  ℕ, ◌+◌, String, ◌≡◌, refl, ap, Bool-cases, inl, inr, Option, none, some, arith,
}
use krafton_week.Effects.{Result, ok, err, or_raise, lift, ◌>>=◌, ◌>>◌}
use krafton_week.Ticketing.Schema.{
  Database, ReservationRow, ConfirmReservationRequest, CancelReservationRequest, ReservationStatus,
  held, confirmed, cancelled, expired, is_held,
}
use krafton_week.Ticketing.Repository
use krafton_week.Ticketing.Service
use krafton_week.Ticketing.Service.{
  Error, World, Action, ask, commit, transact, conflict, seat_already_confirmed, hold_token_in_use,
  integrity_error,
}
use krafton_week.Ticketing.Workflows
use krafton_week.Ticketing.Lifecycle.{IsLawful, IsLawful-refl, IsLawful-trans}
use krafton_week.Ticketing.Lifecycle.Statements.{
  expire_stale-IsLawful, expire_reservation-IsLawful, cancel_reservation-IsLawful,
  confirm_reservation-IsLawful,
}

module _ {A B : Type 0} where
  after-IsLawful :
      (w : World) (f : A → Action B) (x : Result Error A × World)
      → IsLawful w.db x.1.db
      → ((a : A) (w' : World) → x ≡ (ok a, w') → IsLawful w'.db (f a w').1.db)
      → IsLawful w.db (((λ (_ : World). x) >>= f) w).1.db
  after-IsLawful w f (ok a, w') l k = IsLawful-trans w.db w'.db (f a w').1.db l (k a w' refl)
  after-IsLawful w f (err e, w') l k = l

  pub bind-IsLawful :
      (m : Action A) (f : A → Action B) (w : World)
      → IsLawful w.db (m w).1.db
      → ((a : A) (w' : World) → m w ≡ (ok a, w') → IsLawful w'.db (f a w').1.db)
      → IsLawful w.db ((m >>= f) w).1.db
  bind-IsLawful m f w l k = after-IsLawful w f (m w) l k

pub or_raise-kept :
    {A : Type 0} (o : Option A) (e : Error) (w : World) → IsLawful w.db (or_raise o e w).1.db
or_raise-kept none e w = IsLawful-refl w.db
or_raise-kept (some a) e w = IsLawful-refl w.db

commit-IsLawful :
    {A : Type 0} (o : Option Database) (e : Error) (g : Database → A) (w : World)
    → ((db' : Database) → o ≡ some db' → IsLawful w.db db')
    → IsLawful w.db ((commit o e >> ask g) w).1.db
commit-IsLawful none e g w k = IsLawful-refl w.db
commit-IsLawful (some db') e g w k = k db' refl

pub transact-IsLawful :
    {A : Type 0} (f : Database → Option Database) (e : Error) (g : Database → A) (w : World)
    → ((db' : Database) → f w.db ≡ some db' → IsLawful w.db db')
    → IsLawful w.db ((transact f e >> ask g) w).1.db
transact-IsLawful f e g w k = commit-IsLawful (f w.db) e g w k

or_err-kept :
    {A B : Type 0} (r : Result Error A) (f : A → Action B) (w : World)
    → ((a : A) → IsLawful w.db (f a w).1.db)
    → IsLawful w.db ((lift r >>= f) w).1.db
or_err-kept (ok a) f w k = k a
or_err-kept (err e) f w k = IsLawful-refl w.db

module _ (clock : ℕ → String) where
  pub expire_stale-kept : (w : World) → IsLawful w.db (Service.expire_stale clock w).1.db
  unfolding Service.expire_stale
  expire_stale-kept w = expire_stale-IsLawful (clock w.reads) w.db

  -- A method that begins with `_expire_stale` and then reads only.
  require_reservation-kept :
      (i : String) (w : World) → IsLawful w.db (Service.require_reservation clock i w).1.db
  unfolding Service.require_reservation Service.expire_stale
  require_reservation-kept i w =
      let db' = (Repository.expire_stale_reservations (clock w.reads) w.db).1 in
      IsLawful-trans w.db db' (Service.require_reservation clock i w).1.db
        (expire_stale-IsLawful (clock w.reads) w.db)
        (or_raise-kept (Repository.get_reservation i db') Service.reservation_not_found
          (record { db = db'; reads = w.reads + 1 }))

  pub require_reservation-reads :
      (i : String) (w w' : World) (row : ReservationRow)
      → Service.require_reservation clock i w ≡ (ok row, w')
      → Repository.get_reservation i w'.db ≡ some row
  unfolding Service.require_reservation Service.expire_stale
  require_reservation-reads i w w' row h = ground arith

  require_reservation-finds :
      (i : String) (w w' : World) (row : ReservationRow)
      → Service.require_reservation clock i w ≡ (ok row, w')
      → Repository.find_reservation i w'.db ≡ some row.reservation
  unfolding Service.require_reservation Service.expire_stale Repository.get_reservation
  require_reservation-finds i w w' row h = ground arith

  -- What goes on from a row that has been found.
  transition-kept :
      {B : Type 0} (i : String) (f : ReservationRow → Action B) (w : World)
      → ((row : ReservationRow) (w' : World)
          → Repository.find_reservation i w'.db ≡ some row.reservation
          → IsLawful w'.db (f row w').1.db)
      → IsLawful w.db ((Service.require_reservation clock i >>= f) w).1.db
  transition-kept i f w k =
      bind-IsLawful (Service.require_reservation clock i) f w (require_reservation-kept i w)
        (λ row w' h. k row w' (require_reservation-finds i w w' row h))

  confirm_from-kept :
      (status : ReservationStatus) (i : String) (request : ConfirmReservationRequest)
      (row : ReservationRow) (w : World)
      → row.reservation.status ≡ status
      → Repository.find_reservation i w.db ≡ some row.reservation
      → IsLawful w.db (Workflows.confirm_from clock status i request row w).1.db
  confirm_from-kept confirmed i request row w is found =
      elim (Bool-cases (Workflows.payment_matches row.payment request)) [
        | inl e ↦ rw (e, Workflows.confirm_from) (IsLawful-refl w.db)
        | inr e ↦ rw (e, Workflows.confirm_from) (IsLawful-refl w.db)
      ]
  confirm_from-kept held i request row w is found =
      transact-IsLawful
        (Repository.confirm_reservation i request.payment_id request.amount request.provider
          request.provider_ref (clock w.reads))
        (conflict seat_already_confirmed) (Repository.get_reservation i)
        (record w { reads = w.reads + 1 })
        (confirm_reservation-IsLawful i w.db row.reservation found (ap is_held is)
          request.payment_id request.amount request.provider request.provider_ref (clock w.reads))
  confirm_from-kept cancelled i request row w is found = IsLawful-refl w.db
  confirm_from-kept expired i request row w is found = IsLawful-refl w.db

  pub confirm_reservation-kept :
      (i : String) (request : ConfirmReservationRequest) (w : World)
      → IsLawful w.db (Workflows.confirm_reservation clock i request w).1.db
  unfolding Workflows.confirm_reservation
  confirm_reservation-kept i request w =
      transition-kept i (λ row. Workflows.confirm_from clock row.reservation.status i request row) w
        (λ row w' found. confirm_from-kept row.reservation.status i request row w' refl found)

  cancel_from-kept :
      (status : ReservationStatus) (i : String) (request : CancelReservationRequest)
      (row : ReservationRow) (w : World)
      → row.reservation.status ≡ status
      → Repository.find_reservation i w.db ≡ some row.reservation
      → IsLawful w.db (Workflows.cancel_from clock status i request row w).1.db
  cancel_from-kept cancelled i request row w is found = IsLawful-refl w.db
  cancel_from-kept held i request row w is found =
      or_err-kept (Workflows.validate_cancel_payment_payload request)
        (Workflows.cancel_held clock i) w
        (λ payload.
          transact-IsLawful (Repository.cancel_reservation i (clock w.reads) payload)
            integrity_error (Repository.get_reservation i) (record w { reads = w.reads + 1 })
            (cancel_reservation-IsLawful i w.db row.reservation found (ap is_held is)
              (clock w.reads) payload))
  cancel_from-kept confirmed i request row w is found = IsLawful-refl w.db
  cancel_from-kept expired i request row w is found = IsLawful-refl w.db

  pub cancel_reservation-kept :
      (i : String) (request : CancelReservationRequest) (w : World)
      → IsLawful w.db (Workflows.cancel_reservation clock i request w).1.db
  unfolding Workflows.cancel_reservation
  cancel_reservation-kept i request w =
      transition-kept i (λ row. Workflows.cancel_from clock row.reservation.status i request row) w
        (λ row w' found. cancel_from-kept row.reservation.status i request row w' refl found)

  expire_from-kept :
      (status : ReservationStatus) (i : String) (row : ReservationRow) (w : World)
      → row.reservation.status ≡ status
      → Repository.find_reservation i w.db ≡ some row.reservation
      → IsLawful w.db (Workflows.expire_from clock status i row w).1.db
  expire_from-kept expired i row w is found = IsLawful-refl w.db
  expire_from-kept held i row w is found =
      expire_reservation-IsLawful i w.db row.reservation found (ap is_held is) (clock w.reads)
  expire_from-kept cancelled i row w is found = IsLawful-refl w.db
  expire_from-kept confirmed i row w is found = IsLawful-refl w.db

  pub expire_reservation-kept :
      (i : String) (w : World) → IsLawful w.db (Workflows.expire_reservation clock i w).1.db
  unfolding Workflows.expire_reservation
  expire_reservation-kept i w =
      transition-kept i (λ row. Workflows.expire_from clock row.reservation.status i row) w
        (λ row w' found. expire_from-kept row.reservation.status i row w' refl found)
