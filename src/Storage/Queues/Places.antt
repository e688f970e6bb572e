-- ===== src/Storage/Queues/Places.antt =====
-- What the place in a queue says, of those who are popped and of those who leave.
use krafton_week.Prelude.{
  ℕ, zero, suc, ◌+◌, String, ◌≡◌, ◌≢◌, ◌∙◌, ap, subst, eq_iff, Bool, true, Bool-cases, inl, inr,
  some, List, [], ◌∷◌, ◌==◌, length, ltb, arith, ℤ, pos, if◌then◌else◌,
}
use krafton_week.Effects.{ok}
use krafton_week.Storage.Engine.{Store}
use krafton_week.Storage.Queues.{
  queue_key, contains, index, remove, queue_position, pop_queue, leave_queue, peek_queue,
}
use krafton_week.Storage.Queues.View.{Queued}
use krafton_week.Storage.Queues.Order.{
  leave, pop_queue-Acts, leave_queue-Acts, queue_position-waiting, peek_queue-front,
}
use krafton_week.Storage.Queues.Fairness.{
  IsUnique, index-remove, contains-remove_other, length-remove,
}

-- What `n` calls of `POP_QUEUE` leave.
pub pops : String → ℕ → Store → Store
pops event_id zero s = s
pops event_id (suc n) s = pops event_id n (pop_queue event_id s).1

pops-turn :
    (event_id u : String) (xs : List String) (s : Store)
    → Queued s (queue_key event_id) xs
    → contains u xs ≡ true
    → (ys : List String) × Queued (pops event_id (index u xs) s) (queue_key event_id) (u ∷ ys)
      × (length xs ≡ index u xs + suc (length ys))
unfolding pops contains index
pops-turn event_id u [] s h waits = absurd cc
pops-turn event_id u (x ∷ xs) s h waits = elim (Bool-cases (x == u)) [
  | inl e ↦ rw e (
    xs,
    subst (λ (y : String). Queued s (queue_key event_id) (y ∷ xs)) ((eq_iff x u).0 e) h,
    omega arith,
  )
  | inr e ↦
      let popped = (pop_queue-Acts event_id s (x ∷ xs) h).queued in
      let (ys, turn, many) =
        pops-turn event_id u xs (pop_queue event_id s).1 popped (ground arith) in
      rw e (ys, turn, omega (arith, many))
]

-- Where the entry stands for a list of users, `QUEUE_POSITION` tells a user who waits the place `n + 1`
-- for the user whom `PEEK_QUEUE` shows after `n` calls of `POP_QUEUE`, and as many wait as have been
-- popped and are left.
pub position_tells_turn :
    (event_id u : String) (xs : List String) (s : Store)
    → Queued s (queue_key event_id) xs
    → contains u xs ≡ true
    → (n left : ℕ) × (queue_position event_id u s ≡ (ok (pos (suc n), n + left), s))
      × (peek_queue event_id (pops event_id n s) ≡ (ok (some u, left), pops event_id n s))
position_tells_turn event_id u xs s h waits =
    let n = index u xs in
    let (ys, turn, many) = pops-turn event_id u xs s h waits in
    (
      n,
      suc (length ys),
      subst (λ (total : ℕ). queue_position event_id u s ≡ (ok (pos (suc n), total), s)) many
          (queue_position-waiting event_id s u xs h waits),
      peek_queue-front event_id (pops event_id n s) u ys turn,
    )

leave_waiting :
    (u : String) (xs : List String)
    → contains u xs ≡ true
    → leave u xs ≡ ((true, pos (suc (index u xs)), length (remove u xs)), remove u xs)
leave_waiting u xs h = ground arith

-- Where the entry stands for a list that has no user twice: when `u` leaves, `LEAVE_QUEUE` tells the place
-- of `u` and how many are left, and after that the place of another user who waits is one less if `u`
-- stood in front, and the same if not.
pub leaving_moves_up :
    (event_id u v : String) (xs : List String) (s : Store)
    → Queued s (queue_key event_id) xs
    → IsUnique xs
    → contains u xs ≡ true
    → contains v xs ≡ true
    → u ≢ v
    → let (told, s') = leave_queue event_id u s in
      (k before after left : ℕ) × (told ≡ ok (true, pos (suc k), left))
      × (queue_position event_id v s ≡ (ok (pos (suc before), suc left), s))
      × (queue_position event_id v s' ≡ (ok (pos (suc after), left), s'))
      × (after + (if ltb k before then 1 else 0) ≡ before)
leaving_moves_up event_id u v xs s h unique hu hv ne =
    let s' = (leave_queue event_id u s).1 in
    let acts = leave_queue-Acts event_id s u xs h in
    let left = leave_waiting u xs hu in
    (
      index u xs,
      index v xs,
      index v (remove u xs),
      length (remove u xs),
      acts.returns ∙ ap (λ (x : (Bool × ℤ × ℕ) × List String). ok x.0) left,
      subst (λ (total : ℕ). queue_position event_id v s ≡ (ok (pos (suc (index v xs)), total), s))
          (length-remove u xs hu) (queue_position-waiting event_id s v xs h hv),
      queue_position-waiting event_id s' v (remove u xs)
          (subst (λ (x : (Bool × ℤ × ℕ) × List String). Queued s' (queue_key event_id) x.1) left
            acts.queued)
          (contains-remove_other u v xs ne hv),
      index-remove u v xs unique hu hv ne,
    )
