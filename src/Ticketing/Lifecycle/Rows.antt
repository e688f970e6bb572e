-- ===== src/Ticketing/Lifecycle/Rows.antt =====
-- The rows of `reservations` that an `UPDATE` or an `INSERT` leaves, as finding them by their id shows.
use krafton_week.Prelude.{
  String, ◌≡◌, refl, sym, ◌∙◌, ap, Bool, true, false, Bool-cases, inl, inr, Option, none, some, [],
  ◌∷◌, ◌++◌, ◌==◌, eq_iff, arith, if◌then◌else◌,
}
use krafton_week.Ticketing.Schema.{Reservation, Database, is_confirmed}
use krafton_week.Ticketing.Tables.{find, update}
use krafton_week.Ticketing.Tables.Finds.{changed, find-update, find-append, find_fits}
use krafton_week.Ticketing.Repository
use krafton_week.Ticketing.Repository.{
  and_then, PaymentPayload, is_stale, has_id, is_rival, expire_row, confirm_row, cancel_row,
}
use krafton_week.Ticketing.Lifecycle.{Moves, stays, Evolves, IsLawful, IsSoldOnce}

-- What the statement leaves of the row with the id `i`.
module _ (q : Reservation → Bool) (f : Reservation → Reservation) (db db' : Database) where
  abbrev IsUpdate : Type 0
  IsUpdate =
      ((x : Reservation) → (f x).reservation_id ≡ x.reservation_id)
      × (db'.reservations ≡ update q f db.reservations)

  pub find_reservation-update :
      IsUpdate
      → (i : String)
      → Repository.find_reservation i db' ≡ changed q f (Repository.find_reservation i db)
  unfolding Repository.find_reservation
  find_reservation-update (keeps, is) i =
      ap (find (has_id i)) is
      ∙ find-update (has_id i) q f db.reservations (λ x. ap (λ (t : String). t == i) (keeps x))

  pub update-Evolves :
      IsUpdate
      → ((i : String) (x : Reservation)
          → Repository.find_reservation i db ≡ some x
          → q x ≡ true
          → Moves x (f x))
      → Evolves db db'
  update-Evolves is moves i r found = elim (Bool-cases (q r)) [
    | inl e ↦ (f r, ground (arith, find_reservation-update is i), moves i r found e)
    | inr e ↦ (r, ground (arith, find_reservation-update is i), stays refl)
  ]

  -- A statement that confirms nothing.
  changed_back :
      ((x : Reservation) → is_confirmed (f x).status ≡ false)
      → (o : Option Reservation) (r : Reservation) → changed q f o ≡ some r
      → is_confirmed r.status ≡ true
      → o ≡ some r
  changed_back never none r h c = absurd cc
  changed_back never (some x) r h c = elim (Bool-cases (q x)) [
    | inl e ↦ absurd (ground (arith, never x))
    | inr e ↦ ground arith
  ]

  pub update-IsSoldOnce :
      IsUpdate
      → ((x : Reservation) → is_confirmed (f x).status ≡ false)
      → IsSoldOnce db
      → IsSoldOnce db'
  update-IsSoldOnce is never once i j r s fr fs cr cs =
      once i j r s
        (changed_back never (Repository.find_reservation i db) r
          (sym (find_reservation-update is i) ∙ fr) cr)
        (changed_back never (Repository.find_reservation j db) s
          (sym (find_reservation-update is j) ∙ fs) cs)
        cr cs

  pub update-IsLawful :
      IsUpdate
      → ((i : String) (x : Reservation)
          → Repository.find_reservation i db ≡ some x
          → q x ≡ true
          → Moves x (f x))
      → ((x : Reservation) → is_confirmed (f x).status ≡ false)
      → IsLawful db db'
  update-IsLawful is moves never = record {
    evolves = update-Evolves is moves;
    sold_once = update-IsSoldOnce is never;
  }

pub find_same :
    (db db' : Database)
    → db'.reservations ≡ db.reservations
    → (i : String) → Repository.find_reservation i db' ≡ Repository.find_reservation i db
unfolding Repository.find_reservation
find_same db db' is i = ap (find (has_id i)) is

-- Only the rows of the other tables differ.
pub same-IsLawful : (db db' : Database) → db'.reservations ≡ db.reservations → IsLawful db db'
same-IsLawful db db' is = record {
  evolves = λ i r found. (r, find_same db db' is i ∙ found, stays refl);
  sold_once = λ once i j r s fr fs.
      once i j r s (sym (find_same db db' is i) ∙ fr) (sym (find_same db db' is j) ∙ fs);
}

pub its_id :
    (j : String) (db : Database) (x : Reservation)
    → Repository.find_reservation j db ≡ some x
    → x.reservation_id ≡ j
unfolding Repository.find_reservation
its_id j db x fx = (eq_iff x.reservation_id j).0 (find_fits (has_id j) db.reservations x fx)

pub its_row :
    (i : String) (db : Database) (r : Reservation)
    → Repository.find_reservation i db ≡ some r
    → (j : String) (x : Reservation) → Repository.find_reservation j db ≡ some x
    → has_id i x ≡ true
    → x ≡ r
its_row i db r found j x fx e =
    let is_j = its_id j db x fx in let is_i = (eq_iff x.reservation_id i).0 e in cc

-- A row goes to the end, and it is not confirmed.
module _ (x : Reservation) (db db' : Database) (is : db'.reservations ≡ db.reservations ++ x ∷ [])
    (never : is_confirmed x.status ≡ false) where
  find_reservation-append :
      (i : String)
      → Repository.find_reservation i db' ≡ elim (Repository.find_reservation i db) [
        | none ↦ if has_id i x then some x else none
        | some r ↦ some r
      ]
  unfolding Repository.find_reservation
  find_reservation-append i = ap (find (has_id i)) is ∙ find-append (has_id i) db.reservations x

  append_back :
      (i : String) (r : Reservation)
      → Repository.find_reservation i db' ≡ some r
      → is_confirmed r.status ≡ true
      → Repository.find_reservation i db ≡ some r
  append_back i r fr cr = ground (arith, find_reservation-append i)

  pub append-IsLawful : IsLawful db db'
  append-IsLawful = record {
    evolves = λ i r fr. (r, ground (arith, find_reservation-append i), stays refl);
    sold_once = λ once i j r s fr fs cr cs.
        once i j r s (append_back i r fr cr) (append_back j s fs cs) cr cs;
  }
