-- ===== src/Storage/Queues/View.antt =====
-- A queue entry stands for the list of its users: each queue command acts on that list.
use krafton_week.Prelude.{
  String, ◌≡◌, ◌≢◌, refl, ap, ◌∙◌, none, some, List, [], ◌∷◌, eq_iff, eq_refl, arith,
}
use krafton_week.Effects.{ok, bind_result}
use krafton_week.Dict.{lookup, lookup-insert, lookup-erase}
use krafton_week.Json.{IsTextual, array, text_items, loads-dumps}
use krafton_week.Storage.Engine.{Store}
use krafton_week.Storage.Queues.{
  read_items, read_list, serialize_queue, deserialize_queue, load_queue, store_queue,
}

-- The entry of the key stands for the queue. An empty queue has no entry.
abbrev pub Queued : Store → String → List String → Type 0
Queued s key [] = lookup key s ≡ none
Queued s key (x ∷ xs) =
    lookup key s ≡ some (record { value = serialize_queue (x ∷ xs); expires_at = none })

AreTextual-text_items : (xs : List String) → IsTextual (array (text_items xs))
unfolding IsTextual text_items
AreTextual-text_items [] = tt
AreTextual-text_items (x ∷ xs) = (tt, AreTextual-text_items xs)

read_items-text_items : (xs : List String) → read_items (text_items xs) ≡ ok xs
unfolding read_items text_items
read_items-text_items [] = refl
read_items-text_items (x ∷ xs) =
    ap (λ r. bind_result r (λ ys. ok (x ∷ ys))) (read_items-text_items xs)

-- Reading a queue that was written gives back its users in order.
pub deserialize-serialize_queue :
    (xs : List String) → deserialize_queue (serialize_queue xs) ≡ ok xs
unfolding deserialize_queue serialize_queue
deserialize-serialize_queue xs =
    ap read_list (loads-dumps (array (text_items xs)) (AreTextual-text_items xs))
    ∙ read_items-text_items xs

pub load_queue-Queued :
    (s : Store) (key : String) (xs : List String) → Queued s key xs → load_queue key s ≡ (ok xs, s)
unfolding load_queue
load_queue-Queued s key [] h = ground arith
load_queue-Queued s key (x ∷ xs) h = ground (arith, deserialize-serialize_queue (x ∷ xs))

-- Writing a queue makes its key stand for it, and changes no other key.
pub store_queue-Queued :
    (s : Store) (key : String) (xs : List String) → Queued (store_queue key xs s) key xs
unfolding store_queue
store_queue-Queued s key [] = ground (arith, lookup-erase key key s, eq_refl key)
store_queue-Queued s key (x ∷ xs) = ground (
  arith,
  lookup-insert key key (record { value = serialize_queue (x ∷ xs); expires_at = none }) s,
  eq_refl key,
)

pub lookup-store_queue :
    (s : Store) (key j : String) (xs : List String)
    → key ≢ j
    → lookup j (store_queue key xs s) ≡ lookup j s
unfolding store_queue
lookup-store_queue s key j [] ne = ground (arith, lookup-erase j key s, eq_iff key j)
lookup-store_queue s key j (x ∷ xs) ne = ground (
  arith,
  lookup-insert j key (record { value = serialize_queue (x ∷ xs); expires_at = none }) s,
  eq_iff key j,
)
