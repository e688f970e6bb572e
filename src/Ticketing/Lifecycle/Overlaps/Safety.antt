-- ===== src/Ticketing/Lifecycle/Overlaps/Safety.antt =====
-- ticketing_api/service.py: a reservation that has been decided, however the requests overlap.
use krafton_week.Prelude.{
  ℕ, String, ◌≡◌, refl, sym, ◌∙◌, ap, false, Bool-cases, inl, inr, Option, none, some, List, [],
  ◌∷◌, eqb, eq_iff, arith, subst,
}
use krafton_week.Ticketing.Schema.{Reservation, ReservationRow, is_held}
use krafton_week.Ticketing.Repository
use krafton_week.Ticketing.Repository.{has_id, expire_row, confirm_row, cancel_row}
use krafton_week.Ticketing.Service.{World}
use krafton_week.Ticketing.Payments.{found_row}
use krafton_week.Ticketing.Lifecycle.Rows.{its_id}
use krafton_week.Ticketing.Lifecycle.Methods.{expire_stale-kept}
use krafton_week.Ticketing.Lifecycle.Creation.{create_load_user-kept}
use krafton_week.Ticketing.Lifecycle.Overlaps.{
  Call, Stage, idle, reading, deciding, State, Event, arrives, goes_on, sweeps, adds_user, inserts,
  id_of, put, found, carry_on, accept, advance, at_thread, happens, all_happen,
}
use krafton_week.Ticketing.Lifecycle.Overlaps.Writes.{carry_on-Writes, carry_on-settled}
use krafton_week.Ticketing.Lifecycle.Overlaps.Drift.{
  lawful-settled, Writes-others, inserted-IsLawful,
}

-- The thread does not go on from a row of the reservation that it has read as held.
abbrev pub HasNotRead : String → Stage → Type 0
HasNotRead i (deciding call row) = id_of call ≡ i → is_held row.reservation.status ≡ false
HasNotRead i stage = Unit

put-HasNotRead :
    (i : String) (n : ℕ) (stage : Stage) (stages : ℕ → Stage)
    → HasNotRead i stage
    → ((m : ℕ) → HasNotRead i (stages m))
    → (m : ℕ) → HasNotRead i (put n stage stages m)
put-HasNotRead i n stage stages new old m = elim (Bool-cases (eqb n m)) [
  | inl e ↦ rw e new
  | inr e ↦ rw e (old m)
]

module _ (clock : ℕ → String) (i : String) (r : Reservation) where
  -- The reservation is stored, and no thread goes on from having read it as held.
  record IsSettled (s : State) : Type 0 where
    is : Repository.find_reservation i s.world.db ≡ some r
    unread : (n : ℕ) → HasNotRead i (s.stages n)

  module _ (over : is_held r.status ≡ false) where
    found-HasNotRead :
        (call : Call) (o : Option ReservationRow) (w : World)
        → o ≡ Repository.get_reservation (id_of call) w.db
        → Repository.find_reservation i w.db ≡ some r
        → HasNotRead i (found call o)
    found-HasNotRead call none w e is = tt
    found-HasNotRead call (some row) w e is = λ same.
        let read = found_row (id_of call) w.db row (sym e) in
        let its =
          subst (λ (j : String). Repository.find_reservation j w.db ≡ some row.reservation) same
            read in
        ground (arith, its, is)

    decided-settled :
        (call : Call) (row : ReservationRow) (w : World)
        → HasNotRead i (deciding call row)
        → Repository.find_reservation i w.db ≡ some r
        → Repository.find_reservation i (carry_on clock call row w).db ≡ some r
    decided-settled call row w h is = elim (Bool-cases (has_id (id_of call) r)) [
      | inl e ↦
          let own = its_id i w.db r is in
          let same = (eq_iff r.reservation_id (id_of call)).0 e in
          ap (λ (w' : World). Repository.find_reservation i w'.db)
            (carry_on-settled clock w row call (h (sym same ∙ own)))
          ∙ is
      | inr e ↦ Writes-others i r w.db _ is (id_of call) (carry_on-Writes clock w row call) e
    ]

    accept-IsSettled :
        (n : ℕ) (call : Call) (stage : Stage) (s : State)
        → IsSettled s
        → HasNotRead i stage
        → IsSettled (at_thread clock n s (accept clock call stage s.world))
    accept-IsSettled n call idle s h own = record {
      is = lawful-settled i r s.world.db _ h.is (expire_stale-kept clock s.world) over;
      unread = put-HasNotRead i n (reading call) s.stages tt h.unread;
    }
    accept-IsSettled n call (reading other) s h own = record {
      is = h.is;
      unread = put-HasNotRead i n (reading other) s.stages tt h.unread;
    }
    accept-IsSettled n call (deciding other row) s h own = record {
      is = h.is;
      unread = put-HasNotRead i n (deciding other row) s.stages own h.unread;
    }

    advance-IsSettled :
        (n : ℕ) (stage : Stage) (s : State)
        → IsSettled s
        → HasNotRead i stage
        → IsSettled (at_thread clock n s (advance clock stage s.world))
    advance-IsSettled n idle s h own = record {
      is = h.is;
      unread = put-HasNotRead i n idle s.stages tt h.unread;
    }
    advance-IsSettled n (reading call) s h own = record {
      is = h.is;
      unread = put-HasNotRead i n _ s.stages (found-HasNotRead call _ s.world refl h.is) h.unread;
    }
    advance-IsSettled n (deciding call row) s h own = record {
      is = decided-settled call row s.world own h.is;
      unread = put-HasNotRead i n idle s.stages tt h.unread;
    }

    happens-IsSettled :
        (event : Event) (s : State) → IsSettled s → IsSettled (happens clock event s)
    unfolding happens
    happens-IsSettled (arrives n call) s h = accept-IsSettled n call (s.stages n) s h (h.unread n)
    happens-IsSettled (goes_on n) s h = advance-IsSettled n (s.stages n) s h (h.unread n)
    happens-IsSettled sweeps s h = record {
      is = lawful-settled i r s.world.db _ h.is (expire_stale-kept clock s.world) over;
      unread = h.unread;
    }
    happens-IsSettled (adds_user user_id rest) s h = record {
      is =
          lawful-settled i r s.world.db _ h.is (create_load_user-kept clock user_id rest s.world)
            over;
      unread = h.unread;
    }
    happens-IsSettled (inserts q) s h = record {
      is = lawful-settled i r s.world.db _ h.is (inserted-IsLawful clock q s.world) over;
      unread = h.unread;
    }

    all_happen-IsSettled :
        (events : List Event) (s : State) → IsSettled s → IsSettled (all_happen clock events s)
    unfolding all_happen
    all_happen-IsSettled [] s h = h
    all_happen-IsSettled (event ∷ events) s h =
        all_happen-IsSettled events (happens clock event s) (happens-IsSettled event s h)

-- However the transactions of requests overlap: a reservation that is confirmed, cancelled or expired
-- is never written again, where no request that is in progress has read it when it was held.
pub settled_for_good :
    (clock : ℕ → String) (events : List Event) (s : State) (i : String) (r : Reservation)
    → Repository.find_reservation i s.world.db ≡ some r
    → is_held r.status ≡ false
    → ((n : ℕ) → HasNotRead i (s.stages n))
    → Repository.find_reservation i (all_happen clock events s).world.db ≡ some r
settled_for_good clock events s i r is over unread =
    (all_happen-IsSettled clock i r over events s (record { is = is; unread = unread })).is
