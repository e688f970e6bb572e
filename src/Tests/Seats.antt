-- ===== src/Tests/Seats.antt =====
-- storage/engine.py: a seat, and runs of requests on it.
use krafton_week.Prelude.{
  String, ◌≡◌, ◌≢◌, refl, true, false, some, List, [], ◌∷◌, All, ℤ, pos, arith, eq_iff,
}
use krafton_week.Dict.{lookup}
use krafton_week.Storage.Ttl.{compute_deadline}
use krafton_week.Storage.Engine.{Store}
use krafton_week.Storage.Seats.{
  seat_key, held_entry, confirmed_entry, reserve_seat, confirm_seat, release_seat,
  force_confirm_seat,
}
use krafton_week.Storage.Seats.View.{held, confirmed, Shows, told, reserve, confirm, release}
use krafton_week.Storage.Seats.Refinement.{
  Acts, reserve_seat-Acts, confirm_seat-Acts, release_seat-Acts, force_confirm_seat-Acts,
}
use krafton_week.Storage.Seats.Requests.{
  SeatRequest, reserve_request, confirm_request, release_request, perform, perform_all,
  perform-others,
}
use krafton_week.Storage.Seats.Safety.{OnlyUser, Fails, confirmed_for_good, hold_excludes_rivals}

abbrev key : String
key = seat_key "show" "A1"

abbrev now : ℤ
now = pos 5000000

abbrev later : ℤ
later = pos 9000000

abbrev sold : Store
sold = (key, confirmed_entry "ann") ∷ []

abbrev held_by_ann : Store
held_by_ann = (seat_key "show" "B2", held_entry "bob" later) ∷ (key, held_entry "ann" later) ∷ []

abbrev rush : List (ℤ × SeatRequest)
rush =
    (now, reserve_request "show" "A1" "bob" (pos 30))
    ∷ (now, confirm_request "show" "A1" "bob")
    ∷ (now, release_request "show" "A1" "bob")
    ∷ (now, reserve_request "show" "B2" "bob" (pos 30))
    ∷ []

confirmed_for_good_example :
    let (log, s') = perform_all rush sold in
    (lookup key s' ≡ some (confirmed_entry "ann")) × All (OnlyUser key "ann") log
unfolding lookup seat_key
confirmed_for_good_example = confirmed_for_good rush sold key "ann" refl

hold_excludes_rivals_example :
    let (log, s') = perform_all rush held_by_ann in
    (lookup key s' ≡ some (held_entry "ann" later)) × All (Fails key) log
unfolding lookup seat_key
hold_excludes_rivals_example = hold_excludes_rivals rush held_by_ann key "ann" later refl (
  (omega arith, λ _. refl),
  ((omega arith, λ _. refl), ((omega arith, λ _. refl), ((omega arith, λ _. refl), tt))),
)

reserve_seat-Acts_example :
    let (r, s') = reserve_seat now "show" "A1" "ann" (pos 30) held_by_ann in
    let (won, a') = reserve "ann" (compute_deadline now (pos 30)) (held "ann" later) in
    Acts now key held_by_ann r s' (won, told now a') a'
unfolding lookup seat_key
reserve_seat-Acts_example =
    reserve_seat-Acts now "show" "A1" "ann" held_by_ann (pos 30) (omega arith) (held "ann" later)
      (refl, omega arith)

confirm_seat-Acts_example :
    let (r, s') = confirm_seat now "show" "A1" "ann" held_by_ann in
    let (won, a') = confirm "ann" (held "ann" later) in
    Acts now key held_by_ann r s' (won, told now a') a'
unfolding lookup seat_key
confirm_seat-Acts_example =
    confirm_seat-Acts now "show" "A1" "ann" held_by_ann (held "ann" later) (refl, omega arith)

release_seat-Acts_example :
    let (r, s') = release_seat now "show" "A1" "ann" held_by_ann in
    let (won, a') = release "ann" (held "ann" later) in
    Acts now key held_by_ann r s' (won, told now a') a'
unfolding lookup seat_key
release_seat-Acts_example =
    release_seat-Acts now "show" "A1" "ann" held_by_ann (held "ann" later) (refl, omega arith)

force_confirm_seat-Acts_example :
    let (result, s') = force_confirm_seat "show" "A1" "bob" held_by_ann in
    (result ≡ (true, told now (confirmed "bob")))
    × Shows now s' key (confirmed "bob")
    × ((j : String) → key ≢ j → lookup j s' ≡ lookup j held_by_ann)
force_confirm_seat-Acts_example = force_confirm_seat-Acts now "show" "A1" "bob" held_by_ann

perform-others_example :
    lookup (seat_key "show" "B2") (perform now (confirm_request "show" "A1" "ann") held_by_ann).1
    ≡ lookup (seat_key "show" "B2") held_by_ann
unfolding seat_key
perform-others_example =
    perform-others now (confirm_request "show" "A1" "ann") held_by_ann (seat_key "show" "B2")
      (λ p. let same : false ≡ true = (eq_iff key (seat_key "show" "B2")).1 p in cc)
