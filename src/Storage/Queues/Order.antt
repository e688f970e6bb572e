-- ===== src/Storage/Queues/Order.antt =====
-- The queue commands act on the abstract queue: first in, first out, and no user twice.
use krafton_week.Prelude.{
  ℕ, suc, ◌+◌, String, ◌≡◌, ◌≢◌, refl, sym, subst, Bool, true, false, Bool-cases, inl, inr, Option,
  none, some, List, [], ◌∷◌, ◌++◌, length, length-append, arith, ℤ, pos, negsuc, if◌then◌else◌,
}
use krafton_week.Effects.{Result, ok}
use krafton_week.Errors.{Error}
use krafton_week.Dict.{lookup}
use krafton_week.Storage.Engine.{Store}
use krafton_week.Storage.Queues.{
  store_queue, queue_key, contains, index, remove, join_queue, queue_position, pop_queue,
  leave_queue, peek_queue,
}
use krafton_week.Storage.Queues.View.{
  Queued, load_queue-Queued, store_queue-Queued, lookup-store_queue,
}

-- What a command does: its result, the queue of its key, and every other key.
pub record Acts {R : Type 0} (key : String) (s : Store) (r : Result Error R) (s' : Store)
    (result : R) (xs : List String) : Type 0 where
  pub returns : r ≡ ok result
  pub queued : Queued s' key xs
  pub others : (j : String) → key ≢ j → lookup j s' ≡ lookup j s

-- The specification of the commands on the list of users.
abbrev pub join : String → List String → (Bool × ℕ × ℕ) × List String
join u xs =
    if contains u xs
    then ((false, suc (index u xs), length xs), xs)
    else ((true, length xs + 1, length xs + 1), xs ++ u ∷ [])

abbrev pub leave : String → List String → (Bool × ℤ × ℕ) × List String
leave u xs =
    if contains u xs
    then ((true, pos (suc (index u xs)), length (remove u xs)), remove u xs)
    else ((false, negsuc 0, length xs), xs)

abbrev pub pop : List String → (Option String × ℕ) × List String
pop [] = ((none, 0), [])
pop (x ∷ xs) = ((some x, length xs), xs)

module _ {R : Type 0} (key : String) (s : Store) (result : R) (xs : List String) where
  Acts-keep :
      (run : Result Error R × Store)
      → run ≡ (ok result, s)
      → Queued s key xs
      → Acts key s run.0 run.1 result xs
  Acts-keep run e h =
      subst (λ (x : Result Error R × Store). Acts key s x.0 x.1 result xs) (sym e)
        (record { returns = refl; queued = h; others = λ j ne. refl })

  Acts-store :
      (run : Result Error R × Store)
      → run ≡ (ok result, store_queue key xs s)
      → Acts key s run.0 run.1 result xs
  Acts-store run e =
      subst (λ (x : Result Error R × Store). Acts key s x.0 x.1 result xs) (sym e)
        (record {
          returns = refl;
          queued = store_queue-Queued s key xs;
          others = λ j ne. lookup-store_queue s key j xs ne;
        })

module _ (event_id : String) (s : Store) where
  -- Where the entry stands for a list of users, `JOIN_QUEUE` puts a new user at the end, and tells a
  -- user who waits the place in the queue; no other key changes.
  pub join_queue-Acts :
      (user_id : String) (xs : List String)
      → Queued s (queue_key event_id) xs
      → let (r, s') = join_queue event_id user_id s in
        Acts (queue_key event_id) s r s' (join user_id xs).0 (join user_id xs).1
  unfolding join_queue
  join_queue-Acts user_id xs h =
      let key = queue_key event_id in
      let loaded = load_queue-Queued s key xs h in
      elim (Bool-cases (contains user_id xs)) [
        | inl e ↦ rw e (Acts-keep key s _ xs _ (ground (arith, loaded)) h)
        | inr e ↦ rw e (
            Acts-store key s _ (xs ++ user_id ∷ []) _
              (ground (arith, loaded, length-append xs (user_id ∷ []))))
      ]

  -- Where the entry stands for a list of users, `POP_QUEUE` takes the first of them out and tells how
  -- many are left; no other key changes.
  pub pop_queue-Acts :
      (xs : List String)
      → Queued s (queue_key event_id) xs
      → let (r, s') = pop_queue event_id s in Acts (queue_key event_id) s r s' (pop xs).0 (pop xs).1
  unfolding pop_queue
  pop_queue-Acts [] h =
      Acts-keep (queue_key event_id) s _ [] _
        (ground (arith, load_queue-Queued s (queue_key event_id) [] h)) h
  pop_queue-Acts (x ∷ xs) h =
      Acts-store (queue_key event_id) s _ xs _
        (ground (arith, load_queue-Queued s (queue_key event_id) (x ∷ xs) h))

  -- Where the entry stands for a list of users, `LEAVE_QUEUE` takes a user out wherever the user stands
  -- and tells the place that the user had; no other key changes.
  pub leave_queue-Acts :
      (user_id : String) (xs : List String)
      → Queued s (queue_key event_id) xs
      → let (r, s') = leave_queue event_id user_id s in
        Acts (queue_key event_id) s r s' (leave user_id xs).0 (leave user_id xs).1
  unfolding leave_queue
  leave_queue-Acts user_id xs h =
      let key = queue_key event_id in
      let loaded = load_queue-Queued s key xs h in
      elim (Bool-cases (contains user_id xs)) [
        | inl e ↦ rw e (Acts-store key s _ (remove user_id xs) _ (ground (arith, loaded)))
        | inr e ↦ rw e (Acts-keep key s _ xs _ (ground (arith, loaded)) h)
      ]

  pub queue_position-waiting :
      (user_id : String) (xs : List String)
      → Queued s (queue_key event_id) xs
      → contains user_id xs ≡ true
      → queue_position event_id user_id s ≡ (ok (pos (suc (index user_id xs)), length xs), s)
  unfolding queue_position
  queue_position-waiting user_id xs h waits =
      ground (arith, load_queue-Queued s (queue_key event_id) xs h)

  pub peek_queue-front :
      (x : String) (xs : List String)
      → Queued s (queue_key event_id) (x ∷ xs)
      → peek_queue event_id s ≡ (ok (some x, suc (length xs)), s)
  unfolding peek_queue
  peek_queue-front x xs h = ground (arith, load_queue-Queued s (queue_key event_id) (x ∷ xs) h)
