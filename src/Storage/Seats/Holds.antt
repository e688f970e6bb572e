-- ===== src/Storage/Seats/Holds.antt =====
-- storage/engine.py: what reading and releasing a seat leave of a hold, whether it has ended or not.
use krafton_week.Prelude.{
  String, ◌≡◌, true, false, some, none, Bool-cases, inl, inr, arith, ℤ, eq_refl, leb_ℤ,
}
use krafton_week.Effects.{ok}
use krafton_week.Dict.{lookup, lookup-erase}
use krafton_week.Storage.Engine.{Store, purge_if_expired}
use krafton_week.Storage.Seats.{
  SeatStatus, seat_key, seat_held, held_entry, is_seat_of, seat_status_by_key, release_seat,
}
use krafton_week.Storage.Seats.View.{
  available, held, told, lookup-purge_if_expired, seat_status_by_key-Shows,
}

module _ (now : ℤ) (key u : String) (d : ℤ) (s : Store)
    (is : lookup key s ≡ some (held_entry u d)) where
  -- The status that is told: a hold that has ended is dropped.
  pub seat_status_by_key-held :
      let (r, s') = seat_status_by_key now key s in
      (status : SeatStatus) × (r ≡ ok status)
      × (is_seat_of status seat_held u ≡ true → lookup key s' ≡ some (held_entry u d))
      × (is_seat_of status seat_held u ≡ false → lookup key s' ≡ none)
  seat_status_by_key-held = elim (Bool-cases (leb_ℤ d now)) [
    | inl ended ↦
        let told_it = seat_status_by_key-Shows now s key available (ground arith) in
        (
          told now available,
          ground (arith, told_it),
          (λ h. absurd cc),
          (λ h. ground (arith, told_it, lookup-purge_if_expired now key key s, eq_refl key)),
        )
    | inr lasts ↦
        let told_it = seat_status_by_key-Shows now s key (held u d) (is, ground arith) in
        (
          told now (held u d),
          ground (arith, told_it),
          (λ h. ground (arith, told_it, lookup-purge_if_expired now key key s, eq_refl key)),
          (λ h. absurd (ground (arith, eq_refl u))),
        )
  ]

-- A release by the user whose hold it is leaves no entry.
pub release_seat-held :
    (now : ℤ) (e t u : String) (d : ℤ) (s : Store)
    → lookup (seat_key e t) s ≡ some (held_entry u d)
    → lookup (seat_key e t) (release_seat now e t u s).1 ≡ none
unfolding release_seat
release_seat-held now e t u d s is =
    let key = seat_key e t in
    let s₁ = (purge_if_expired now key s).1 in
    elim (Bool-cases (leb_ℤ d now)) [
      | inl ended ↦ ground (
        arith,
        seat_status_by_key-Shows now s key available (ground arith),
        lookup-purge_if_expired now key key s,
        eq_refl key,
      )
      | inr lasts ↦ ground (
        arith,
        seat_status_by_key-Shows now s key (held u d) (is, ground arith),
        lookup-erase key key s₁,
        eq_refl key,
        eq_refl u,
      )
    ]

pub seat_status_by_key-free :
    (now : ℤ) (key : String) (s : Store)
    → lookup key s ≡ none
    → lookup key (seat_status_by_key now key s).1 ≡ none
seat_status_by_key-free now key s is = ground (
  arith,
  seat_status_by_key-Shows now s key available (ground (arith, is)),
  lookup-purge_if_expired now key key s,
  eq_refl key,
  is,
)
