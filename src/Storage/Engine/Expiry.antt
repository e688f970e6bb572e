-- ===== src/Storage/Engine/Expiry.antt =====
-- What the commands on plain keys show to a client.
use krafton_week.Prelude.{
  ℕ, zero, suc, ◌<◌, String, ◌≡◌, refl, ap, ◌∙◌, not, is_none, true, Option, none, some, ◌==◌,
  eq_iff, eq_refl, arith, ℤ, pos, ◌-ℤ◌, ◌<ℤ◌, ltb_ℤ, if◌then◌else◌,
}
use krafton_week.Effects.{ok}
use krafton_week.Dict.{lookup, insert, erase, lookup-insert, lookup-erase}
use krafton_week.Storage.Ttl.{compute_deadline, remaining_seconds}
use krafton_week.Storage.Ttl.Deadlines.{lt-compute_deadline, remaining_seconds-compute_deadline}
use krafton_week.Storage.Engine.{Entry, Store, has_expired, set, get, delete, expire, ttl}

-- The value that a client can read at `now`.
abbrev pub visible : ℤ → Option Entry → Option String
visible now none = none
visible now (some e) = if has_expired now e then none else some e.value

pub get-visible : (now : ℤ) (k : String) (s : Store) → (get now k s).0 ≡ visible now (lookup k s)
unfolding get
get-visible now k s = ground (arith, lookup-erase k k s, eq_refl k)

-- `EXPIRE` of a key without a deadline, with a positive timeout and no option.
expire_persistent :
    (now : ℤ) (k v : String) (m : ℕ) (s : Store)
    → lookup k s ≡ some (record { value = v; expires_at = none })
    → expire now k (pos (suc m)) none s ≡ (
      ok true,
      insert k (record { value = v; expires_at = some (compute_deadline now (pos (suc m))) }) s,
    )
unfolding expire
expire_persistent now k v m s e = ground arith

ttl_of :
    (now : ℤ) (k v : String) (d : ℤ) (s : Store)
    → lookup k s ≡ some (record { value = v; expires_at = some d })
    → now <ℤ d
    → (ttl now k s).0 ≡ remaining_seconds (d -ℤ now)
unfolding ttl
ttl_of now k v d s e early = ground arith

-- A value that is set and then given a timeout is there exactly until the deadline, and `TTL` tells
-- the timeout at once.
pub expire_exact :
    (now now' : ℤ) (k v : String) (n : ℕ) (s : Store)
    → 0 < n
    → let (r, s') = expire now k (pos n) none (set k v s) in
      (r ≡ ok true)
      × ((get now' k s').0 ≡ (if ltb_ℤ now' (compute_deadline now (pos n)) then some v else none))
      × ((ttl now k s').0 ≡ pos n)
unfolding set
expire_exact now now' k v zero s h = absurd (omega arith)
expire_exact now now' k v (suc m) s h =
    let plain : Entry = record { value = v; expires_at = none } in
    let d = compute_deadline now (pos (suc m)) in
    let timed : Entry = record { value = v; expires_at = some d } in
    let s₁ = insert k plain s in
    let ran =
      expire_persistent now k v m s₁ (ground (arith, lookup-insert k k plain s, eq_refl k)) in
    let found : lookup k (insert k timed s₁) ≡ some timed =
      ground (arith, lookup-insert k k timed s₁, eq_refl k) in
    rw ran (
      refl,
      get-visible now' k (insert k timed s₁) ∙ ap (visible now') found ∙ ground arith,
      ttl_of now k v d (insert k timed s₁) found
            (lt-compute_deadline now (pos (suc m)) (omega arith))
          ∙ remaining_seconds-compute_deadline now (suc m),
    )

-- A value that is set replaces what was there, with any deadline, and every other key reads as before.
pub get-set :
    (now : ℤ) (k j v : String) (s : Store)
    → (get now j (set k v s)).0 ≡ (if k == j then some v else (get now j s).0)
unfolding set
get-set now k j v s = ground (
  arith,
  get-visible now j (insert k (record { value = v; expires_at = none }) s),
  get-visible now j s,
  lookup-insert j k (record { value = v; expires_at = none }) s,
)

lookup-delete :
    (now : ℤ) (k j : String) (s : Store)
    → lookup j (delete now k s).1 ≡ (if k == j then none else lookup j s)
unfolding delete
lookup-delete now k j s = ground (
  arith,
  lookup-erase j k s,
  lookup-erase k k s,
  lookup-erase j k (erase k s),
  eq_iff k j,
  eq_refl k,
)

delete-visible :
    (now : ℤ) (k : String) (s : Store)
    → (delete now k s).0 ≡ not (is_none (visible now (lookup k s)))
unfolding delete
delete-visible now k s = ground (arith, lookup-erase k k s, eq_refl k)

-- `DEL` tells whether the key could be read, and leaves it unreadable; every other key reads as
-- before.
pub get-delete :
    (now : ℤ) (k j : String) (s : Store)
    → let (removed, s') = delete now k s in
      (removed ≡ not (is_none (get now k s).0))
      × ((get now j s').0 ≡ (if k == j then none else (get now j s).0))
get-delete now k j s = (
  rw (get-visible now k s) (delete-visible now k s),
  rw (get-visible now j (delete now k s).1, get-visible now j s, lookup-delete now k j s)
      (ground arith),
)
