-- ===== src/Ticketing/Lifecycle/Overlaps/Drift.antt =====
-- ticketing_api/service.py: what may become of a reservation however the requests overlap.
use krafton_week.Prelude.{ℕ, String, ◌≡◌, refl, ◌∙◌, ap, true, false, Option, none, some, arith}
use krafton_week.Ticketing.Schema.{Reservation, Database, HeldReservationCreate, is_held}
use krafton_week.Ticketing.Repository
use krafton_week.Ticketing.Repository.{has_id, expire_row, confirm_row, cancel_row}
use krafton_week.Ticketing.Service.{World}
use krafton_week.Ticketing.Lifecycle.{IsSoldOnce, IsLawful, IsLawful-refl, settled}
use krafton_week.Ticketing.Lifecycle
use krafton_week.Ticketing.Lifecycle.Rows.{find_reservation-update, find_same}
use krafton_week.Ticketing.Lifecycle.Statements.{create_held-IsLawful}
use krafton_week.Ticketing.Lifecycle.Overlaps.{stored, inserted}
use krafton_week.Ticketing.Lifecycle.Overlaps.Writes.{
  IsTransition, expires, confirms, cancels, Writes, nothing, its_status,
}

-- The columns that only the insertion writes.
abbrev pub facts :
    Reservation → String × String × String × String × Option String × Option String × String
facts r =
    (r.reservation_id, r.event_id, r.seat_id, r.user_id, r.hold_token, r.expires_at, r.created_at)

-- The facts stay, and a row that is held has never been written.
abbrev pub Drifts : Reservation → Reservation → Type 0
Drifts r r' = (facts r' ≡ facts r) × (is_held r'.status ≡ true → r' ≡ r)

abbrev pub Drifted : String → Reservation → Database → Type 0
Drifted i r db = (r' : Reservation) × (Repository.find_reservation i db ≡ some r') × Drifts r r'

over_Drifts :
    (r x row : Reservation)
    → x ≡ row
    → facts row ≡ facts r
    → is_held row.status ≡ false
    → Drifts r x
over_Drifts r x row p q over = (ap facts p ∙ q, λ h. absurd cc)

transition-Drifts :
    (f : Reservation → Reservation) (r : Reservation) → IsTransition f → Drifts r (f r)
transition-Drifts f r (expires now p) =
    over_Drifts r (f r) (expire_row now r) (ap (λ (g : Reservation → Reservation). g r) p) refl refl
transition-Drifts f r (confirms now p) =
    over_Drifts r (f r) (confirm_row now r) (ap (λ (g : Reservation → Reservation). g r) p) refl
      refl
transition-Drifts f r (cancels now p) =
    over_Drifts r (f r) (cancel_row now r) (ap (λ (g : Reservation → Reservation). g r) p) refl refl

transition-keeps :
    (f : Reservation → Reservation)
    → IsTransition f
    → (x : Reservation) → (f x).reservation_id ≡ x.reservation_id
transition-keeps f t x =
    ap (λ (y : String × String × String × String × Option String × Option String × String). y.0)
      (transition-Drifts f x t).0

module _ (i : String) (r : Reservation) (db db' : Database)
    (is : Repository.find_reservation i db ≡ some r) where
  pub lawful-settled :
      IsLawful db db' → is_held r.status ≡ false → Repository.find_reservation i db' ≡ some r
  lawful-settled lawful over =
      let (r', is', move) = lawful.evolves i r is in
      is' ∙ ap (λ (x : Reservation). some x) (settled r r' move over)

  pub Writes-others :
      (j : String)
      → Writes j db db'
      → has_id j r ≡ false
      → Repository.find_reservation i db' ≡ some r
  Writes-others j (nothing same) e = find_same db db' same i ∙ is
  Writes-others j (its_status f t is_update once) e =
      let now = find_reservation-update (has_id j) f db db' (transition-keeps f t, is_update) i in
      ground (arith, now)

module _ (clock : ℕ → String) where
  stored-IsLawful :
      (o : Option Database) (w : World)
      → ((db' : Database) → o ≡ some db' → IsLawful w.db db')
      → IsLawful w.db (stored clock o w).db
  stored-IsLawful none w k = IsLawful-refl w.db
  stored-IsLawful (some db') w k = k db' refl

  pub inserted-IsLawful :
      (q : HeldReservationCreate) (w : World) → IsLawful w.db (inserted clock q w).db
  inserted-IsLawful q w = stored-IsLawful _ w (
      create_held-IsLawful q.reservation_id q.event_id q.seat_id q.user_id q.hold_token q.expires_at
        (clock w.reads) w.db)
