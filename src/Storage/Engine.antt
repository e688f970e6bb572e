-- ===== src/Storage/Engine.antt =====
-- storage/engine.py: the entries, expiry, and the commands on plain keys. The lock makes each
-- method one step on the dict. The clock is read once in a method: `now` is what it shows.
pub mod Expiry
pub mod Snapshots
use krafton_week.Prelude.{
  String, Bool, true, false, Option, none, some, List, [], ◌∷◌, ℤ, pos, negsuc, ◌-ℤ◌, leb_ℤ,
  if◌then◌else◌,
}
use krafton_week.Effects.{Exec, pure, lift, ◌>>=◌, run, gets, modify, ◌>>◌}
use krafton_week.Dict.{Dict, lookup, insert, erase}
use krafton_week.Errors.{Error}
use krafton_week.Storage.Ttl.{
  normalize_expire_option, compute_deadline, is_expired, should_apply_expiry, remaining_seconds,
}

pub record Entry : Type 0 where
  pub value : String
  pub expires_at : Option ℤ

abbrev pub Store : Type 0
Store = Dict Entry

-- The entry has a deadline that has passed.
abbrev pub has_expired : ℤ → Entry → Bool
has_expired now e = elim e.expires_at [ none ↦ false | some d ↦ is_expired d now ]

pub set : String → String → Store → Store
set key value = insert key (record { value = value; expires_at = none })

abbrev pub delete_key : String → Store → Store
delete_key key = erase key

unfoldable pub purge_if_expired : ℤ → String → Store → Bool × Store
purge_if_expired now key store = elim (lookup key store) [
  | none ↦ (false, store)
  | some entry ↦ if has_expired now entry then (true, delete_key key store) else (false, store)
]

abbrev entry_value : Option Entry → Option String
entry_value none = none
entry_value (some entry) = some entry.value

pub get : ℤ → String → Store → Option String × Store
unfolding purge_if_expired
get now key store =
    let store' = (purge_if_expired now key store).1 in (entry_value (lookup key store'), store')

pub delete : ℤ → String → Store → Bool × Store
unfolding purge_if_expired
delete now key store =
    let store' = (purge_if_expired now key store).1 in
    elim (lookup key store') [ none ↦ (false, store') | some entry ↦ (true, delete_key key store') ]

-- The write at the end of `expire`: a timeout that is not positive deletes the key.
abbrev write_deadline : String → ℤ → ℤ → Entry → Store → Store
write_deadline key seconds new_deadline entry store =
    if leb_ℤ seconds (pos 0)
    then delete_key key store
    else insert key (record entry { expires_at = some new_deadline }) store

abbrev apply_expiry : ℤ → String → ℤ → Option String → Entry → Exec Error Store Bool
apply_expiry now key seconds option entry = do
  let new_deadline = compute_deadline now seconds
  allowed ← lift (should_apply_expiry option entry.expires_at new_deadline)
  if allowed
      then (do modify (write_deadline key seconds new_deadline entry); pure true)
      else pure false

abbrev expire_found : ℤ → String → ℤ → Option String → Option Entry → Exec Error Store Bool
expire_found now key seconds option none = pure false
expire_found now key seconds option (some entry) = apply_expiry now key seconds option entry

pub expire : ℤ → String → ℤ → Option String → Exec Error Store Bool
unfolding purge_if_expired normalize_expire_option should_apply_expiry
expire now key seconds raw_option = do
  option ← lift (normalize_expire_option raw_option)
  purged ← run (purge_if_expired now key)
  if purged
      then pure false
      else do entry ← gets (lookup key); expire_found now key seconds option entry

abbrev remaining : ℤ → Option Entry → ℤ
remaining now none = negsuc 1
remaining now (some entry) = elim entry.expires_at [
  | none ↦ negsuc 0
  | some d ↦ remaining_seconds (d -ℤ now)
]

pub ttl : ℤ → String → Store → ℤ × Store
unfolding purge_if_expired
ttl now key store =
    let (purged, store') = purge_if_expired now key store in
    if purged then (negsuc 1, store') else (remaining now (lookup key store'), store')

pub purge_expired_keys : ℤ → Store → Store
purge_expired_keys now [] = []
purge_expired_keys now ((key, entry) ∷ store) =
    let rest = purge_expired_keys now store in
    if has_expired now entry then rest else (key, entry) ∷ rest

abbrev SnapshotEntry : Type 0
SnapshotEntry = String × String × Option ℤ

pub export : Store → List SnapshotEntry
export [] = []
export ((key, entry) ∷ store) = (key, entry.value, entry.expires_at) ∷ export store

pub snapshot : ℤ → Store → List SnapshotEntry × Store
unfolding purge_expired_keys export
snapshot now store = let store' = purge_expired_keys now store in (export store', store')

-- The loop of `load_snapshot` over the entries, from the store that is filled so far.
pub load_entries : ℤ → List SnapshotEntry → Store → Store
load_entries now [] store = store
load_entries now ((key, value, deadline) ∷ entries) store = load_entries now entries (
    if has_expired now (record { value = value; expires_at = deadline })
    then store
    else insert key (record { value = value; expires_at = deadline }) store)

pub load_snapshot : ℤ → List SnapshotEntry → Store → Store
unfolding load_entries
load_snapshot now entries store = load_entries now entries []
