-- ===== src/Ticketing/Lifecycle/Overlaps/Sold.antt =====
-- ticketing_api/service.py: what is sold, however the requests overlap.
use krafton_week.Prelude.{ℕ, String, List, [], ◌∷◌}
use krafton_week.Ticketing.Schema.{Database}
use krafton_week.Ticketing.Service.{World}
use krafton_week.Ticketing.Lifecycle.{IsSoldOnce}
use krafton_week.Ticketing.Lifecycle.Rows.{same-IsLawful}
use krafton_week.Ticketing.Lifecycle.Methods.{expire_stale-kept}
use krafton_week.Ticketing.Lifecycle.Creation.{create_load_user-kept}
use krafton_week.Ticketing.Lifecycle.Overlaps.{
  Call, Stage, idle, reading, deciding, State, Event, arrives, goes_on, sweeps, adds_user, inserts,
  id_of, accept, advance, happens, all_happen,
}
use krafton_week.Ticketing.Lifecycle.Overlaps.Writes.{Writes, nothing, its_status, carry_on-Writes}
use krafton_week.Ticketing.Lifecycle.Overlaps.Drift.{inserted-IsLawful}

Writes-IsSoldOnce :
    (i : String) (db db' : Database) → Writes i db db' → IsSoldOnce db → IsSoldOnce db'
Writes-IsSoldOnce i db db' (nothing same) once = (same-IsLawful db db' same).sold_once once
Writes-IsSoldOnce i db db' (its_status f t is_update sold) once = sold once

module _ (clock : ℕ → String) where
  accept-IsSoldOnce :
      (call : Call) (stage : Stage) (w : World)
      → IsSoldOnce w.db
      → IsSoldOnce (accept clock call stage w).1.db
  accept-IsSoldOnce call idle w once = (expire_stale-kept clock w).sold_once once
  accept-IsSoldOnce call (reading other) w once = once
  accept-IsSoldOnce call (deciding other row) w once = once

  advance-IsSoldOnce :
      (stage : Stage) (w : World) → IsSoldOnce w.db → IsSoldOnce (advance clock stage w).1.db
  advance-IsSoldOnce idle w once = once
  advance-IsSoldOnce (reading call) w once = once
  advance-IsSoldOnce (deciding call row) w once =
      Writes-IsSoldOnce (id_of call) w.db _ (carry_on-Writes clock w row call) once

  happens-IsSoldOnce :
      (event : Event) (s : State)
      → IsSoldOnce s.world.db
      → IsSoldOnce (happens clock event s).world.db
  unfolding happens
  happens-IsSoldOnce (arrives n call) s once = accept-IsSoldOnce call (s.stages n) s.world once
  happens-IsSoldOnce (goes_on n) s once = advance-IsSoldOnce (s.stages n) s.world once
  happens-IsSoldOnce sweeps s once = (expire_stale-kept clock s.world).sold_once once
  happens-IsSoldOnce (adds_user user_id rest) s once =
      (create_load_user-kept clock user_id rest s.world).sold_once once
  happens-IsSoldOnce (inserts q) s once = (inserted-IsLawful clock q s.world).sold_once once

-- However the transactions of requests overlap: where no two reservations have sold the same seat, none
-- have afterwards.
pub never_sold_twice :
    (clock : ℕ → String) (events : List Event) (s : State)
    → IsSoldOnce s.world.db
    → IsSoldOnce (all_happen clock events s).world.db
unfolding all_happen
never_sold_twice clock [] s once = once
never_sold_twice clock (event ∷ events) s once =
    never_sold_twice clock events (happens clock event s) (happens-IsSoldOnce clock event s once)
