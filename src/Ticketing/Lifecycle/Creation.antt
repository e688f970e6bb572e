-- ===== src/Ticketing/Lifecycle/Creation.antt =====
-- ticketing_api/service.py: the creation of a held reservation and the methods on many reservations.
use krafton_week.Prelude.{
  ℕ, ◌+◌, String, Bool, true, Bool-cases, inl, inr, Option, none, some, List, [], ◌∷◌,
}
use Prim.Native.String.{◌++◌}
use krafton_week.Text.{strip_prefix}
use krafton_week.Effects.{Result, ok, err, pure, ◌>>◌}
use krafton_week.Ticketing.Schema.{Reservation, User, ReservationRow, HeldReservationCreate}
use krafton_week.Ticketing.Repository
use krafton_week.Ticketing.Service
use krafton_week.Ticketing.Service.{
  Error, World, Action, ask, conflict, hold_token_in_use, user_not_found, event_not_found,
  seat_not_found, reservation_not_found, integrity_error,
}
use krafton_week.Ticketing.Workflows
use krafton_week.Ticketing.Lifecycle.{IsLawful, IsLawful-refl, IsLawful-trans}
use krafton_week.Ticketing.Lifecycle.Statements.{create_user-IsLawful, create_held-IsLawful}
use krafton_week.Ticketing.Lifecycle.Methods.{
  bind-IsLawful, or_raise-kept, transact-IsLawful, expire_stale-kept, expire_reservation-kept,
}

module _ (clock : ℕ → String) where
  pub create_load_user-kept :
      (user_id : String) (rest : Option String) (w : World)
      → IsLawful w.db (Service.create_load_user clock user_id rest w).1.db
  create_load_user-kept user_id none w = IsLawful-refl w.db
  create_load_user-kept user_id (some rest) w =
      let db' =
        Repository.create_user user_id ("Load User " ++ Service.alias clock rest)
          (user_id ++ "@demo.local") (clock w.reads) w.db in
      IsLawful-trans w.db db' (Service.create_load_user clock user_id (some rest) w).1.db
        (create_user-IsLawful user_id ("Load User " ++ Service.alias clock rest)
          (user_id ++ "@demo.local") (clock w.reads) w.db)
        (or_raise-kept (Repository.get_user user_id db') user_not_found
          (record { db = db'; reads = w.reads + 1 }))

  user_or_new-kept :
      (user_id : String) (user : Option User) (w : World)
      → IsLawful w.db (Service.user_or_new clock user_id user w).1.db
  user_or_new-kept user_id (some user) w = IsLawful-refl w.db
  user_or_new-kept user_id none w =
      create_load_user-kept user_id (strip_prefix "load-user-" user_id) w

  ensure_user-kept :
      (user_id : String) (w : World) → IsLawful w.db (Service.ensure_user clock user_id w).1.db
  unfolding Service.ensure_user
  ensure_user-kept user_id w = user_or_new-kept user_id (Repository.get_user user_id w.db) w

  require_event-kept :
      (event_id : String) (w : World) → IsLawful w.db (Service.require_event clock event_id w).1.db
  unfolding Service.require_event
  require_event-kept event_id w =
      or_raise-kept (Repository.get_event event_id w.db) event_not_found w

  require_seat-kept :
      (event_id seat_id : String) (w : World)
      → IsLawful w.db (Service.require_seat clock event_id seat_id w).1.db
  unfolding Service.require_seat
  require_seat-kept event_id seat_id w =
      or_raise-kept (Repository.get_seat event_id seat_id w.db) seat_not_found w

  create_new-kept :
      (q : HeldReservationCreate) (w : World) → IsLawful w.db (Workflows.create_new clock q w).1.db
  create_new-kept q w =
      elim (Bool-cases (Repository.has_confirmed_reservation q.event_id q.seat_id w.db)) [
        | inl e ↦ rw (e, Workflows.create_new) (IsLawful-refl w.db)
        | inr e ↦
            rw (e, Workflows.create_new)
              (transact-IsLawful
                (Repository.create_held_reservation q.reservation_id q.event_id q.seat_id q.user_id
                  q.hold_token q.expires_at (clock w.reads))
                (conflict hold_token_in_use)
                (λ db. (Repository.get_reservation q.reservation_id db, true))
                (record w { reads = w.reads + 1 })
                (create_held-IsLawful q.reservation_id q.event_id q.seat_id q.user_id q.hold_token
                  q.expires_at (clock w.reads) w.db))
      ]

  create_or_repeat-kept :
      (q : HeldReservationCreate) (existing : Option ReservationRow) (w : World)
      → IsLawful w.db (Workflows.create_or_repeat clock q existing w).1.db
  create_or_repeat-kept q none w = create_new-kept q w
  create_or_repeat-kept q (some row) w =
      elim (Bool-cases (Workflows.held_request_matches row.reservation q)) [
        | inl e ↦ rw (e, Workflows.create_or_repeat) (IsLawful-refl w.db)
        | inr e ↦ rw (e, Workflows.create_or_repeat) (IsLawful-refl w.db)
      ]

  abbrev after_user : HeldReservationCreate → Action (Option ReservationRow × Bool)
  after_user q w =
      Workflows.create_or_repeat clock q (Repository.get_reservation q.reservation_id w.db) w

  abbrev after_seat : HeldReservationCreate → Action (Option ReservationRow × Bool)
  after_seat q = Service.ensure_user clock q.user_id >> after_user q

  abbrev after_event : HeldReservationCreate → Action (Option ReservationRow × Bool)
  after_event q = Service.require_seat clock q.event_id q.seat_id >> after_seat q

  after_event-kept : (q : HeldReservationCreate) (w : World) → IsLawful w.db (after_event q w).1.db
  after_event-kept q w =
      bind-IsLawful (Service.require_seat clock q.event_id q.seat_id) (λ _. after_seat q) w
        (require_seat-kept q.event_id q.seat_id w)
        (λ _ w₁ _.
          bind-IsLawful (Service.ensure_user clock q.user_id) (λ _. after_user q) w₁
            (ensure_user-kept q.user_id w₁)
            (λ _ w₂ _.
              create_or_repeat-kept q (Repository.get_reservation q.reservation_id w₂.db) w₂))

  pub create_held_reservation-kept :
      (q : HeldReservationCreate) (w : World)
      → IsLawful w.db (Workflows.create_held_reservation clock q w).1.db
  unfolding Workflows.create_held_reservation
  create_held_reservation-kept q w =
      bind-IsLawful (Service.expire_stale clock)
        (λ _. Service.require_event clock q.event_id >> after_event q) w (expire_stale-kept clock w)
        (λ _ w₁ _.
          bind-IsLawful (Service.require_event clock q.event_id) (λ _. after_event q) w₁
            (require_event-kept q.event_id w₁) (λ _ w₂ _. after_event-kept q w₂))

  -- The loop that expires what it has listed.
  unless_conflict-kept :
      (r : Result Error (Option ReservationRow)) (rest : Action (List (Option ReservationRow)))
      (w : World)
      → IsLawful w.db (rest w).1.db
      → IsLawful w.db (Workflows.unless_conflict clock r rest w).1.db
  unless_conflict-kept (ok row) rest w h =
      bind-IsLawful rest (λ rows. pure (row ∷ rows)) w h (λ rows w' _. IsLawful-refl w'.db)
  unless_conflict-kept (err (conflict reason)) rest w h = h
  unless_conflict-kept (err event_not_found) rest w h = IsLawful-refl w.db
  unless_conflict-kept (err user_not_found) rest w h = IsLawful-refl w.db
  unless_conflict-kept (err seat_not_found) rest w h = IsLawful-refl w.db
  unless_conflict-kept (err reservation_not_found) rest w h = IsLawful-refl w.db
  unless_conflict-kept (err integrity_error) rest w h = IsLawful-refl w.db

  expire_each-kept :
      (rows : List Reservation) (w : World)
      → IsLawful w.db (Workflows.expire_each clock rows w).1.db
  unfolding Workflows.expire_each
  expire_each-kept [] w = IsLawful-refl w.db
  expire_each-kept (r ∷ rows) w =
      let (result, w') = Workflows.expire_reservation clock r.reservation_id w in
      IsLawful-trans w.db w'.db (Workflows.expire_each clock (r ∷ rows) w).1.db
        (expire_reservation-kept clock r.reservation_id w)
        (unless_conflict-kept result (Workflows.expire_each clock rows) w'
          (expire_each-kept rows w'))

  pub expire_stale_reservations-kept :
      (limit : ℕ) (w : World)
      → IsLawful w.db (Workflows.expire_stale_reservations clock limit w).1.db
  unfolding Workflows.expire_stale_reservations Workflows.list_stale_held_reservations
  expire_stale_reservations-kept limit w =
      expire_each-kept (Repository.list_stale_held_reservations (clock w.reads) limit w.db)
        (record w { reads = w.reads + 1 })

  pub list_event_seats-kept :
      (event_id : String) (w : World)
      → IsLawful w.db (Service.list_event_seats clock event_id w).1.db
  unfolding Service.list_event_seats
  list_event_seats-kept event_id w =
      bind-IsLawful (Service.expire_stale clock)
        (λ _. Service.require_event clock event_id >> ask (Repository.list_seats event_id)) w
        (expire_stale-kept clock w)
        (λ _ w₁ _.
          bind-IsLawful (Service.require_event clock event_id)
            (λ _. ask (Repository.list_seats event_id)) w₁ (require_event-kept event_id w₁)
            (λ _ w₂ _. IsLawful-refl w₂.db))

  pub list_user_reservations-kept :
      (user_id : String) (w : World)
      → IsLawful w.db (Workflows.list_user_reservations clock user_id w).1.db
  unfolding Workflows.list_user_reservations
  list_user_reservations-kept user_id w =
      bind-IsLawful (Service.expire_stale clock)
        (λ _. Service.require_user clock user_id >> ask (Repository.list_user_reservations user_id))
        w (expire_stale-kept clock w)
        (λ _ w₁ _.
          bind-IsLawful (Service.require_user clock user_id)
            (λ _. ask (Repository.list_user_reservations user_id)) w₁
            (or_raise-kept (Repository.get_user user_id w₁.db) user_not_found w₁)
            (λ _ w₂ _. IsLawful-refl w₂.db))

  pub list_confirmed_seats-kept :
      (event_id : String) (w : World)
      → IsLawful w.db (Workflows.list_confirmed_seats clock event_id w).1.db
  unfolding Workflows.list_confirmed_seats
  list_confirmed_seats-kept event_id w =
      bind-IsLawful (Service.expire_stale clock)
        (λ _.
          Service.require_event clock event_id >> ask (Repository.list_confirmed_seats event_id))
        w (expire_stale-kept clock w)
        (λ _ w₁ _.
          bind-IsLawful (Service.require_event clock event_id)
            (λ _. ask (Repository.list_confirmed_seats event_id)) w₁
            (require_event-kept event_id w₁) (λ _ w₂ _. IsLawful-refl w₂.db))
