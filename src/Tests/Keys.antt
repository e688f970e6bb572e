-- ===== src/Tests/Keys.antt =====
-- storage/engine.py: plain keys and snapshots.
use krafton_week.Prelude.{
  String, ◌≡◌, refl, true, not, is_none, none, some, [], ◌∷◌, ◌==◌, arith, ℤ, pos, ltb_ℤ,
  if◌then◌else◌,
}
use krafton_week.Effects.{ok}
use krafton_week.Dict.{lookup}
use krafton_week.Storage.Ttl.{compute_deadline}
use krafton_week.Storage.Engine.{Store, set, get, delete, expire, ttl, snapshot, load_snapshot}
use krafton_week.Storage.Engine.Expiry.{expire_exact, get-set, get-delete}
use krafton_week.Storage.Engine.Snapshots.{load_snapshot-snapshot}

abbrev now : ℤ
now = pos 5000000

abbrev store : Store
store =
    ("a", record { value = "1"; expires_at = none })
    ∷ ("b", record { value = "2"; expires_at = some (pos 4000000) })
    ∷ ("c", record { value = "3"; expires_at = some (pos 9000000) })
    ∷ []

load_snapshot-snapshot_example :
    let (entries, s') = snapshot now store in
    (load_snapshot now entries [] ≡ s')
    × ((k : String) → (get now k (load_snapshot now entries [])).0 ≡ (get now k store).0)
unfolding lookup
load_snapshot-snapshot_example = load_snapshot-snapshot now store [] (refl, (refl, (refl, tt)))

expire_exact_example :
    let (r, s') = expire now "d" (pos 30) none (set "d" "4" store) in
    (r ≡ ok true)
    × ((get (pos 6000000) "d" s').0
        ≡ (if ltb_ℤ (pos 6000000) (compute_deadline now (pos 30)) then some "4" else none))
    × ((ttl now "d" s').0 ≡ pos 30)
expire_exact_example = expire_exact now (pos 6000000) "d" "4" 30 store (omega arith)

get-set_example :
    (get now "c" (set "b" "5" store)).0 ≡ (if "b" == "c" then some "5" else (get now "c" store).0)
get-set_example = get-set now "b" "c" "5" store

get-delete_example :
    let (removed, s') = delete now "b" store in
    (removed ≡ not (is_none (get now "b" store).0))
    × ((get now "c" s').0 ≡ (if "b" == "c" then none else (get now "c" store).0))
get-delete_example = get-delete now "b" "c" store
