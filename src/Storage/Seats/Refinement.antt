-- ===== src/Storage/Seats/Refinement.antt =====
-- Each seat command acts on the store as the specification acts on the abstract seat, and leaves
-- every other key alone.
use krafton_week.Prelude.{
  String, ◌≡◌, ◌≢◌, refl, sym, subst, Bool, true, Bool-cases, inl, inr, some, ◌==◌, eq_iff, eq_refl,
  arith, ℤ, pos, negsuc, ◌<ℤ◌,
}
use krafton_week.Effects.{Result, ok}
use krafton_week.Errors.{Error}
use krafton_week.Dict.{lookup, insert, erase, lookup-insert, lookup-erase}
use krafton_week.Storage.Ttl.{compute_deadline}
use krafton_week.Storage.Ttl.Deadlines.{lt-compute_deadline, remaining_seconds-compute_deadline}
use krafton_week.Storage.Engine.{Entry, Store, purge_if_expired}
use krafton_week.Storage.Seats.{
  SeatStatus, seat_key, seat_held, held_entry, confirmed_entry, may_reserve, seat_status_by_key,
  reserve_seat, confirm_seat, force_confirm_seat, release_seat,
}
use krafton_week.Storage.Seats.View.{
  Seat, available, held, confirmed, Shows, told, reserve, confirm, release, lookup-purge_if_expired,
  seat_status_by_key-Shows,
}

-- What a command does: its result, the seat at its key, and every other key.
pub record Acts (now : ℤ) (key : String) (s : Store) (r : Result Error (Bool × SeatStatus))
    (s' : Store) (result : Bool × SeatStatus) (a' : Seat) : Type 0 where
  pub returns : r ≡ ok result
  pub shows : Shows now s' key a'
  pub others : (j : String) → key ≢ j → lookup j s' ≡ lookup j s

-- The store as reading a status leaves it.
abbrev purged : ℤ → String → Store → Store
purged now key s = (purge_if_expired now key s).1

-- How a command ends: it leaves the store as reading the status left it, or writes the seat's entry,
-- or deletes it.
module _ (now : ℤ) (key : String) (s : Store) (result : Bool × SeatStatus) where
  Acts-keep :
      (a : Seat) → Shows now s key a → Acts now key s (ok result) (purged now key s) result a
  Acts-keep available h = record {
    returns = refl;
    shows = ground (arith, lookup-purge_if_expired now key key s, eq_refl key);
    others = λ j ne. ground (arith, lookup-purge_if_expired now key j s, eq_iff key j);
  }
  Acts-keep (held v d) h = record {
    returns = refl;
    shows = ground (arith, lookup-purge_if_expired now key key s, eq_refl key);
    others = λ j ne. ground (arith, lookup-purge_if_expired now key j s, eq_iff key j);
  }
  Acts-keep (confirmed v) h = record {
    returns = refl;
    shows = ground (arith, lookup-purge_if_expired now key key s, eq_refl key);
    others = λ j ne. ground (arith, lookup-purge_if_expired now key j s, eq_iff key j);
  }

  Acts-erase : Acts now key s (ok result) (erase key (purged now key s)) result available
  Acts-erase = record {
    returns = refl;
    shows = ground (arith, lookup-erase key key (purged now key s), eq_refl key);
    others = λ j ne. ground (
      arith,
      lookup-erase j key (purged now key s),
      lookup-purge_if_expired now key j s,
      eq_iff key j,
    );
  }

  Acts-insert :
      (e : Entry) (a : Seat)
      → ((s' : Store) → lookup key s' ≡ some e → Shows now s' key a)
      → Acts now key s (ok result) (insert key e (purged now key s)) result a
  Acts-insert e a shown = record {
    returns = refl;
    shows = shown _ (ground (arith, lookup-insert key key e (purged now key s), eq_refl key));
    others = λ j ne. ground (
      arith,
      lookup-insert j key e (purged now key s),
      lookup-purge_if_expired now key j s,
      eq_iff key j,
    );
  }

-- A command's outcome, read off an equation of its run.
Acts-run :
    {now : ℤ} {key : String} {s : Store} {result : Bool × SeatStatus} {a : Seat}
    (run : Result Error (Bool × SeatStatus) × Store) (s' : Store)
    → run ≡ (ok result, s')
    → Acts now key s (ok result) s' result a
    → Acts now key s run.0 run.1 result a
Acts-run {now} {key} {s} {result} {a} run s' e acts =
    subst (λ (x : Result Error (Bool × SeatStatus) × Store). Acts now key s x.0 x.1 result a)
      (sym e) acts

module _ (now : ℤ) (event_id seat_id user_id : String) (s : Store) where
  -- Where the entry stands for a seat, `RELEASE_SEAT` frees it if the user holds it, and leaves any other
  -- seat as it is. It tells the seat's status, and no other key changes.
  pub release_seat-Acts :
      (a : Seat)
      → Shows now s (seat_key event_id seat_id) a
      → let (r, s') = release_seat now event_id seat_id user_id s in
        let (won, a') = release user_id a in
        Acts now (seat_key event_id seat_id) s r s' (won, told now a') a'
  unfolding release_seat
  release_seat-Acts available h =
      let key = seat_key event_id seat_id in
      Acts-run _ (purged now key s) (ground (arith, seat_status_by_key-Shows now s key available h))
        (Acts-keep now key s _ available h)
  release_seat-Acts (held v d) h =
      let key = seat_key event_id seat_id in
      let status = seat_status_by_key-Shows now s key (held v d) h in
      elim (Bool-cases (v == user_id)) [
        | inl e ↦ rw e (
            Acts-run _ (erase key (purged now key s)) (ground (arith, status))
              (Acts-erase now key s _))
        | inr e ↦ rw e (
            Acts-run _ (purged now key s) (ground (arith, status))
              (Acts-keep now key s _ (held v d) h))
      ]
  release_seat-Acts (confirmed v) h =
      let key = seat_key event_id seat_id in
      Acts-run _ (purged now key s)
        (ground (arith, seat_status_by_key-Shows now s key (confirmed v) h))
        (Acts-keep now key s _ (confirmed v) h)

  -- Where the entry stands for a seat, `CONFIRM_SEAT` confirms it if the user holds it, and leaves any
  -- other seat as it is; it succeeds on a seat that the user has confirmed, too. It tells the seat's
  -- status, and no other key changes.
  pub confirm_seat-Acts :
      (a : Seat)
      → Shows now s (seat_key event_id seat_id) a
      → let (r, s') = confirm_seat now event_id seat_id user_id s in
        let (won, a') = confirm user_id a in
        Acts now (seat_key event_id seat_id) s r s' (won, told now a') a'
  unfolding confirm_seat
  confirm_seat-Acts available h =
      let key = seat_key event_id seat_id in
      Acts-run _ (purged now key s) (ground (arith, seat_status_by_key-Shows now s key available h))
        (Acts-keep now key s _ available h)
  confirm_seat-Acts (held v d) h =
      let key = seat_key event_id seat_id in
      let status = seat_status_by_key-Shows now s key (held v d) h in
      elim (Bool-cases (v == user_id)) [
        | inl e ↦ rw e (
            Acts-run _ (insert key (confirmed_entry user_id) (purged now key s))
              (ground (arith, status))
              (Acts-insert now key s _ (confirmed_entry user_id) (confirmed user_id) (λ s' e'. e')))
        | inr e ↦ rw e (
            Acts-run _ (purged now key s) (ground (arith, status))
              (Acts-keep now key s _ (held v d) h))
      ]
  confirm_seat-Acts (confirmed v) h =
      let key = seat_key event_id seat_id in
      Acts-run _ (purged now key s)
        (ground (arith, seat_status_by_key-Shows now s key (confirmed v) h))
        (Acts-keep now key s _ (confirmed v) h)

  -- `FORCE_CONFIRM_SEAT` confirms the seat whatever its entry was, and no other key changes.
  pub force_confirm_seat-Acts :
      let (result, s') = force_confirm_seat event_id seat_id user_id s in
      (result ≡ (true, told now (confirmed user_id)))
      × Shows now s' (seat_key event_id seat_id) (confirmed user_id)
      × ((j : String) → seat_key event_id seat_id ≢ j → lookup j s' ≡ lookup j s)
  unfolding force_confirm_seat
  force_confirm_seat-Acts =
      let key = seat_key event_id seat_id in
      (
        refl,
        ground (arith, lookup-insert key key (confirmed_entry user_id) s, eq_refl key),
        λ j ne. ground (arith, lookup-insert j key (confirmed_entry user_id) s, eq_iff key j),
      )

module _ (now : ℤ) (event_id seat_id user_id : String) (s : Store) (hold_seconds : ℤ)
    (positive : pos 0 <ℤ hold_seconds) where
  abbrev deadline : ℤ
  deadline = compute_deadline now hold_seconds

  told-held :
      (n : ℤ)
      → pos 0 <ℤ n
      → told now (held user_id (compute_deadline now n))
        ≡ record { state = seat_held; user_id = some user_id; ttl = n }
  told-held (pos n) h = rw (remaining_seconds-compute_deadline now n)
  told-held (negsuc n) h = absurd (omega arith)

  holds :
      (s' : Store)
      → lookup (seat_key event_id seat_id) s' ≡ some (held_entry user_id deadline)
      → Shows now s' (seat_key event_id seat_id) (held user_id deadline)
  holds s' e = (e, lt-compute_deadline now hold_seconds positive)

  reserves :
      (a : Seat)
      → seat_status_by_key now (seat_key event_id seat_id) s
        ≡ (ok (told now a), purged now (seat_key event_id seat_id) s)
      → may_reserve (told now a) user_id ≡ true
      → Acts now
          (seat_key event_id seat_id)
          s
          (reserve_seat now event_id seat_id user_id hold_seconds s).0
          (reserve_seat now event_id seat_id user_id hold_seconds s).1
          (true, told now (held user_id deadline))
          (held user_id deadline)
  unfolding reserve_seat
  reserves a status allowed =
      let key = seat_key event_id seat_id in
      Acts-run _ (insert key (held_entry user_id deadline) (purged now key s))
        (ground (arith, status, told-held hold_seconds positive))
        (Acts-insert now key s _ (held_entry user_id deadline) (held user_id deadline) holds)

  -- Where the entry stands for a seat and the hold time is positive, `RESERVE_SEAT` holds the seat until
  -- the deadline if it is available or the user holds it, and leaves any other seat as it is. It tells
  -- the seat's status, and no other key changes.
  pub reserve_seat-Acts :
      (a : Seat)
      → Shows now s (seat_key event_id seat_id) a
      → let (r, s') = reserve_seat now event_id seat_id user_id hold_seconds s in
        let (won, a') = reserve user_id deadline a in
        Acts now (seat_key event_id seat_id) s r s' (won, told now a') a'
  unfolding reserve_seat
  reserve_seat-Acts available h =
      reserves available (seat_status_by_key-Shows now s _ available h) refl
  reserve_seat-Acts (held v d) h =
      let key = seat_key event_id seat_id in
      let status = seat_status_by_key-Shows now s key (held v d) h in
      elim (Bool-cases (v == user_id)) [
        | inl e ↦ rw e (reserves (held v d) status (ground arith))
        | inr e ↦ rw e (
            Acts-run _ (purged now key s) (ground (arith, status))
              (Acts-keep now key s _ (held v d) h))
      ]
  reserve_seat-Acts (confirmed v) h =
      let key = seat_key event_id seat_id in
      Acts-run _ (purged now key s)
        (ground (arith, seat_status_by_key-Shows now s key (confirmed v) h))
        (Acts-keep now key s _ (confirmed v) h)
