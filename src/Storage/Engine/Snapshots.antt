-- ===== src/Storage/Engine/Snapshots.antt =====
-- Snapshots: what is saved is what can be read, and loading it gives the same store back.
use mathlib.Core.List.{append-nil, append_assoc}
use krafton_week.Prelude.{
  String, ◌≡◌, refl, sym, ap, ◌∙◌, false, none, [], ◌∷◌, ◌++◌, eq_iff, arith, ℤ,
}
use krafton_week.Dict.{lookup, IsDict, insert_new, lookup_front}
use krafton_week.Storage.Engine.{
  Entry, Store, has_expired, get, purge_expired_keys, export, snapshot, load_entries, load_snapshot,
}
use krafton_week.Storage.Engine.Expiry.{visible, get-visible}

lookup-purge_expired_keys-none :
    (now : ℤ) (j : String) (s : Store)
    → lookup j s ≡ none
    → lookup j (purge_expired_keys now s) ≡ none
unfolding purge_expired_keys lookup
lookup-purge_expired_keys-none now j [] h = refl
lookup-purge_expired_keys-none now j ((k, e) ∷ s) h =
    ground (arith, lookup-purge_expired_keys-none now j s)

purge_expired_keys-IsDict : (now : ℤ) (s : Store) → IsDict s → IsDict (purge_expired_keys now s)
unfolding purge_expired_keys
purge_expired_keys-IsDict now [] h = tt
purge_expired_keys-IsDict now ((k, e) ∷ s) h =
    ground (arith, purge_expired_keys-IsDict now s h.1, lookup-purge_expired_keys-none now k s h.0)

visible-purge_expired_keys :
    (now : ℤ) (j : String) (s : Store)
    → IsDict s
    → visible now (lookup j (purge_expired_keys now s)) ≡ visible now (lookup j s)
unfolding purge_expired_keys lookup
visible-purge_expired_keys now j [] h = refl
visible-purge_expired_keys now j ((k, e) ∷ s) h = ground (
  arith,
  visible-purge_expired_keys now j s h.1,
  lookup-purge_expired_keys-none now k s h.0,
  eq_iff k j,
)

abbrev IsLive : ℤ → Store → Type 0
IsLive now [] = Unit
IsLive now ((k, e) ∷ s) = (has_expired now e ≡ false) × IsLive now s

purge_expired_keys-IsLive : (now : ℤ) (s : Store) → IsLive now (purge_expired_keys now s)
unfolding purge_expired_keys
purge_expired_keys-IsLive now [] = tt
purge_expired_keys-IsLive now ((k, e) ∷ s) = ground (arith, purge_expired_keys-IsLive now s)

load_entries_step :
    (now : ℤ) (k : String) (e : Entry) (p t : Store)
    → has_expired now e ≡ false
    → lookup k t ≡ none
    → load_entries now (export ((k, e) ∷ p)) t ≡ load_entries now (export p) (t ++ (k, e) ∷ [])
unfolding load_entries export
load_entries_step now k e p t live new = ground (arith, insert_new k e t new)

-- Loading the entries of a store behind those of another puts the one after the other.
load_entries-export :
    (now : ℤ) (p t : Store)
    → IsLive now p
    → IsDict (t ++ p)
    → load_entries now (export p) t ≡ t ++ p
unfolding load_entries export
load_entries-export now [] t live h = sym (append-nil t)
load_entries-export now ((k, e) ∷ p) t live h =
    load_entries_step now k e p t live.0 (lookup_front k e t p h)
    ∙ (load_entries-export now p (t ++ (k, e) ∷ []) live.1 (rw (append_assoc t ((k, e) ∷ []) p) h)
        ∙ append_assoc t ((k, e) ∷ []) p)

-- In a store that has no key twice: loading a snapshot at the moment when it was taken gives the store that it was taken from, with its
-- expired entries dropped and the rest in its order, whatever was in the store before.
pub load_snapshot-snapshot :
    (now : ℤ) (s t : Store)
    → IsDict s
    → let (entries, s') = snapshot now s in
      (load_snapshot now entries t ≡ s')
      × ((k : String) → (get now k (load_snapshot now entries t)).0 ≡ (get now k s).0)
unfolding snapshot load_snapshot
load_snapshot-snapshot now s t h =
    let same =
      load_entries-export now (purge_expired_keys now s) [] (purge_expired_keys-IsLive now s)
        (purge_expired_keys-IsDict now s h) in
    (
      same,
      λ k.
          get-visible now k _
          ∙ ap (λ (x : Store). visible now (lookup k x)) same
          ∙ visible-purge_expired_keys now k s h
          ∙ sym (get-visible now k s),
    )
