-- ===== src/Ticketing/Lifecycle.antt =====
-- ticketing_api/: what may become of a reservation, and what may be sold, from one state of the
-- database to another.
pub mod Rows
pub mod Sale
pub mod Statements
pub mod Methods
pub mod Creation
pub mod Runs
pub mod Overlaps
use krafton_week.Prelude.{String, ◌≡◌, refl, ◌∙◌, ap, subst, true, false, some}
use krafton_week.Ticketing.Schema.{Reservation, Database, is_held, is_confirmed}
use krafton_week.Ticketing.Repository.{find_reservation, expire_row, confirm_row, cancel_row}

-- A row stays, or it is held and is then expired, confirmed or cancelled: only the status and the
-- times of the change are written.
pub data Moves (r r' : Reservation) : Type 0 where
  stays : r' ≡ r → Moves r r'
  expires : is_held r.status ≡ true → (now : String) → r' ≡ expire_row now r → Moves r r'
  confirms : is_held r.status ≡ true → (now : String) → r' ≡ confirm_row now r → Moves r r'
  cancels : is_held r.status ≡ true → (now : String) → r' ≡ cancel_row now r → Moves r r'

-- No reservation is lost, and each is moved as above.
abbrev pub Evolves : Database → Database → Type 0
Evolves db db' =
    (i : String) (r : Reservation)
    → find_reservation i db ≡ some r
    → (r' : Reservation) × (find_reservation i db' ≡ some r') × Moves r r'

-- No seat is sold by two reservations.
abbrev pub IsSoldOnce : Database → Type 0
IsSoldOnce db =
    (i j : String) (r q : Reservation)
    → find_reservation i db ≡ some r
    → find_reservation j db ≡ some q
    → is_confirmed r.status ≡ true
    → is_confirmed q.status ≡ true
    → r.event_id ≡ q.event_id
    → r.seat_id ≡ q.seat_id
    → i ≡ j

pub record IsLawful (db db' : Database) : Type 0 where
  pub evolves : Evolves db db'
  pub sold_once : IsSoldOnce db → IsSoldOnce db'

-- A row that is not held stays.
pub settled : (r r' : Reservation) → Moves r r' → is_held r.status ≡ false → r' ≡ r
settled r r' (stays p) h = p
settled r r' (expires is now p) h = absurd cc
settled r r' (confirms is now p) h = absurd cc
settled r r' (cancels is now p) h = absurd cc

Moves-trans : (a b c : Reservation) → Moves a b → Moves b c → Moves a c
Moves-trans a b c (stays p) n = subst (λ (r : Reservation). Moves r c) p n
Moves-trans a b c (expires is now p) n =
    expires is now (settled b c n (ap (λ (r : Reservation). is_held r.status) p) ∙ p)
Moves-trans a b c (confirms is now p) n =
    confirms is now (settled b c n (ap (λ (r : Reservation). is_held r.status) p) ∙ p)
Moves-trans a b c (cancels is now p) n =
    cancels is now (settled b c n (ap (λ (r : Reservation). is_held r.status) p) ∙ p)

pub IsLawful-refl : (db : Database) → IsLawful db db
IsLawful-refl db = record { evolves = λ i r is. (r, is, stays refl); sold_once = λ once. once }

pub IsLawful-trans : (a b c : Database) → IsLawful a b → IsLawful b c → IsLawful a c
IsLawful-trans a b c m n = record {
  evolves = λ i r is.
      let (r', is', move') = m.evolves i r is in
      let (r'', is'', move'') = n.evolves i r' is' in
      (r'', is'', Moves-trans r r' r'' move' move'');
  sold_once = λ once. n.sold_once (m.sold_once once);
}
