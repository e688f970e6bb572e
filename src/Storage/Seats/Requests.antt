-- ===== src/Storage/Seats/Requests.antt =====
-- Runs of seat requests from any users, one after the other, as the single worker performs them.
use krafton_week.Prelude.{
  String, ◌≡◌, ◌≢◌, refl, Bool, true, false, Bool-cases, inl, inr, some, List, [], ◌∷◌, ◌==◌,
  eq_iff, arith, ℤ, pos, ◌<ℤ◌, leb_ℤ,
}
use krafton_week.Effects.{Result, ok, err, Exec}
use krafton_week.Errors.{Error, value_error}
use krafton_week.Dict.{lookup, lookup-insert, lookup-erase}
use krafton_week.Storage.Ttl.{compute_deadline}
use krafton_week.Storage.Engine.{Store, purge_if_expired}
use krafton_week.Storage.Seats.{
  SeatStatus, seat_key, held_entry, confirmed_entry, seat_status_by_key, reserve_seat, confirm_seat,
  release_seat,
}
use krafton_week.Storage.Seats.View.{held, confirmed, lookup-purge_if_expired}
use krafton_week.Storage.Seats.Refinement.{reserve_seat-Acts, confirm_seat-Acts, release_seat-Acts}

-- The event, the seat and the user of a request; a reservation has its hold time too.
pub data SeatRequest : Type 0 where
  reserve_request : String → String → String → ℤ → SeatRequest
  confirm_request release_request : String → String → String → SeatRequest

abbrev pub key_of : SeatRequest → String
key_of (reserve_request e t u h) = seat_key e t
key_of (confirm_request e t u) = seat_key e t
key_of (release_request e t u) = seat_key e t

abbrev pub user_of : SeatRequest → String
user_of (reserve_request e t u h) = u
user_of (confirm_request e t u) = u
user_of (release_request e t u) = u

unfoldable pub perform : ℤ → SeatRequest → Exec Error Store (Bool × SeatStatus)
perform now (reserve_request e t u h) = reserve_seat now e t u h
perform now (confirm_request e t u) = confirm_seat now e t u
perform now (release_request e t u) = release_seat now e t u

abbrev pub succeeded : Result Error (Bool × SeatStatus) → Bool
succeeded (ok (won, status)) = won
succeeded (err e) = false

-- The requests with the clock's readings; whether each succeeded, and the store at the end.
unfoldable pub perform_all : List (ℤ × SeatRequest) → Store → List (SeatRequest × Bool) × Store
perform_all [] s = ([], s)
perform_all ((now, request) ∷ requests) s =
    let (r, s') = perform now request s in
    let (log, s'') = perform_all requests s' in ((request, succeeded r) ∷ log, s'')

seat_status_by_key-store :
    (now : ℤ) (key : String) (s : Store)
    → (seat_status_by_key now key s).1 ≡ (purge_if_expired now key s).1
unfolding seat_status_by_key
seat_status_by_key-store now key s = ground arith

-- A request touches the key of its seat alone, whatever the entries are.
pub perform-others :
    (now : ℤ) (request : SeatRequest) (s : Store) (j : String)
    → key_of request ≢ j
    → lookup j (perform now request s).1 ≡ lookup j s
unfolding perform reserve_seat confirm_seat release_seat
perform-others now (reserve_request e t u h) s j ne =
    let key = seat_key e t in
    let s₁ = (purge_if_expired now key s).1 in
    ground (
      arith,
      seat_status_by_key-store now key s,
      lookup-purge_if_expired now key j s,
      eq_iff key j,
      lookup-insert j key (held_entry u (compute_deadline now h)) s₁,
    )
perform-others now (confirm_request e t u) s j ne =
    let key = seat_key e t in
    let s₁ = (purge_if_expired now key s).1 in
    ground (
      arith,
      seat_status_by_key-store now key s,
      lookup-purge_if_expired now key j s,
      eq_iff key j,
      lookup-insert j key (confirmed_entry u) s₁,
    )
perform-others now (release_request e t u) s j ne =
    let key = seat_key e t in
    let s₁ = (purge_if_expired now key s).1 in
    ground (
      arith,
      seat_status_by_key-store now key s,
      lookup-purge_if_expired now key j s,
      eq_iff key j,
      lookup-erase j key s₁,
    )

-- A hold time that is not positive is refused before anything is read.
pub reserve_seat_refused :
    (now : ℤ) (e t u : String) (h : ℤ) (s : Store)
    → leb_ℤ h (pos 0) ≡ true
    → reserve_seat now e t u h s
      ≡ (err (value_error "RESERVE_SEAT ttl_seconds must be a positive integer"), s)
unfolding reserve_seat
reserve_seat_refused now e t u h s neg = rw (neg, reserve_seat)

-- What one request can do to a seat that is confirmed for `u`, or held by `u`: a success of another
-- user is excluded, and the entry stays.
module _ (now : ℤ) (s : Store) (u : String) where
  pub perform-confirmed :
      (request : SeatRequest)
      → lookup (key_of request) s ≡ some (confirmed_entry u)
      → let (r, s') = perform now request s in
        (lookup (key_of request) s' ≡ some (confirmed_entry u))
        × (succeeded r ≡ true → user_of request ≡ u)
  unfolding perform
  perform-confirmed (reserve_request e t v h) is = elim (Bool-cases (leb_ℤ h (pos 0))) [
    | inl neg ↦ rw (reserve_seat_refused now e t v h s neg) (is, λ won. cc)
    | inr pos_h ↦
        let acts = reserve_seat-Acts now e t v s h (ground arith) (confirmed u) is in
        (acts.shows, λ won. ground (arith, acts.returns))
  ]
  perform-confirmed (confirm_request e t v) is =
      let acts = confirm_seat-Acts now e t v s (confirmed u) is in
      (acts.shows, λ won. ground (arith, acts.returns, eq_iff u v))
  perform-confirmed (release_request e t v) is =
      let acts = release_seat-Acts now e t v s (confirmed u) is in
      (acts.shows, λ won. ground (arith, acts.returns))

  pub perform-held :
      (d : ℤ) (request : SeatRequest)
      → now <ℤ d
      → (user_of request == u) ≡ false
      → lookup (key_of request) s ≡ some (held_entry u d)
      → let (r, s') = perform now request s in
        (lookup (key_of request) s' ≡ some (held_entry u d)) × (succeeded r ≡ false)
  unfolding perform
  perform-held d (reserve_request e t v h) early ne is = elim (Bool-cases (leb_ℤ h (pos 0))) [
    | inl neg ↦ rw (reserve_seat_refused now e t v h s neg) (is, refl)
    | inr pos_h ↦
        let acts = reserve_seat-Acts now e t v s h (ground arith) (held u d) (is, early) in
        ground (arith, acts.returns, acts.shows, eq_iff u v, eq_iff v u)
  ]
  perform-held d (confirm_request e t v) early ne is =
      let acts = confirm_seat-Acts now e t v s (held u d) (is, early) in
      ground (arith, acts.returns, acts.shows, eq_iff u v, eq_iff v u)
  perform-held d (release_request e t v) early ne is =
      let acts = release_seat-Acts now e t v s (held u d) (is, early) in
      ground (arith, acts.returns, acts.shows, eq_iff u v, eq_iff v u)
