-- ===== src/Storage/Queues.antt =====
-- storage/engine.py: the waiting queues. A queue is the entry of its key, a JSON list of users.
-- These commands do not look at the entry's deadline.
pub mod View
pub mod Order
pub mod Fairness
pub mod Places
use Prim.Native.String.{◌++◌}
use krafton_week.Prelude.{
  ℕ, suc, String, Bool, true, false, Option, none, some, List, [], ◌∷◌, ◌++◌ as append, ◌==◌,
  length, ℤ, pos, negsuc, if◌then◌else◌,
}
use krafton_week.Effects.{Result, ok, err, Exec, pure, lift, ◌>>=◌, ◌>>◌, gets, modify, bind_result}
use krafton_week.Dict.{lookup, insert}
use krafton_week.Errors.{Error, value_error, json_decode_error}
use krafton_week.Json.{Json, Items, nil, cons, text, array, text_items, dumps, loads}
use krafton_week.Storage.Engine.{Entry, Store, delete_key}

unfoldable pub queue_key : String → String
queue_key event_id = "queue:" ++ event_id

pub serialize_queue : List String → String
serialize_queue queue = dumps (array (text_items queue))

pub read_items : Items → Result Error (List String)
read_items nil = ok []
read_items (cons (text x) vs) = bind_result (read_items vs) (λ xs. ok (x ∷ xs))
read_items (cons _ vs) = err (value_error "queue entries must be strings")

abbrev read_list : Option Json → Result Error (List String)
read_list none = err json_decode_error
read_list (some (array vs)) = read_items vs
read_list (some _) = err (value_error "queue record must be a list")

pub deserialize_queue : String → Result Error (List String)
unfolding read_items
deserialize_queue raw_value = read_list (loads raw_value)

abbrev queue_of : Option Entry → Result Error (List String)
queue_of none = ok []
queue_of (some entry) = deserialize_queue entry.value

pub load_queue : String → Exec Error Store (List String)
load_queue key store = (queue_of (lookup key store), store)

pub store_queue : String → List String → Store → Store
store_queue key [] = delete_key key
store_queue key (x ∷ xs) =
    insert key (record { value = serialize_queue (x ∷ xs); expires_at = none })

-- `user_id in queue`, `queue.index(user_id)` where it is, and `queue.remove(user_id)`
unfoldable pub contains : String → List String → Bool
contains u [] = false
contains u (x ∷ xs) = if x == u then true else contains u xs

pub index : String → List String → ℕ
index u [] = 0
index u (x ∷ xs) = if x == u then 0 else suc (index u xs)

pub remove : String → List String → List String
remove u [] = []
remove u (x ∷ xs) = if x == u then xs else x ∷ remove u xs

pub join_queue : String → String → Exec Error Store (Bool × ℕ × ℕ)
join_queue event_id user_id = do
  let key = queue_key event_id
  queue ← load_queue key
  if contains user_id queue then pure (false, suc (index user_id queue), length queue) else (do
    let queue' = append queue (user_id ∷ [])
    modify (store_queue key queue')
    pure (true, length queue', length queue'))

pub queue_position : String → String → Exec Error Store (ℤ × ℕ)
queue_position event_id user_id = do
  queue ← load_queue (queue_key event_id)
  if contains user_id queue
      then pure (pos (suc (index user_id queue)), length queue)
      else pure (negsuc 0, length queue)

abbrev pop_from : String → List String → Exec Error Store (Option String × ℕ)
pop_from key [] = pure (none, 0)
pop_from key (user_id ∷ queue) = do
  modify (store_queue key queue)
  pure (some user_id, length queue)

pub pop_queue : String → Exec Error Store (Option String × ℕ)
pop_queue event_id = do let key = queue_key event_id; queue ← load_queue key; pop_from key queue

pub leave_queue : String → String → Exec Error Store (Bool × ℤ × ℕ)
leave_queue event_id user_id = do
  let key = queue_key event_id
  queue ← load_queue key
  if contains user_id queue
      then (do
        let position = pos (suc (index user_id queue))
        let queue' = remove user_id queue
        modify (store_queue key queue')
        pure (true, position, length queue'))
      else pure (false, negsuc 0, length queue)

abbrev pub front_of : List String → Option String × ℕ
front_of [] = (none, 0)
front_of (x ∷ xs) = (some x, suc (length xs))

pub peek_queue : String → Exec Error Store (Option String × ℕ)
peek_queue event_id = do queue ← load_queue (queue_key event_id); pure (front_of queue)
