-- ===== src/Storage/Queues/Fairness.antt =====
-- Fairness of the queue: nobody waits twice, users are served in the order in which they joined.
use mathlib.Core.Path.{ap₂}
use mathlib.Core.List.{append-nil, append_assoc}
use krafton_week.Errors.{Error}
use krafton_week.Dict.{lookup}
use krafton_week.Prelude.{
  zero, map, sym, subst, ℕ, suc, ◌+◌, String, ◌≡◌, ◌≢◌, refl, ap, ◌∙◌, true, false, Bool-cases, inl,
  inr, Option, none, some, List, [], ◌∷◌, ◌++◌, ◌==◌, eq_iff, length, ltb, arith, if◌then◌else◌,
}
use krafton_week.Effects.{Result, ok, err}
use krafton_week.Storage.Engine.{Store}
use krafton_week.Storage.Queues.{
  queue_key, contains, index, remove, join_queue, pop_queue, leave_queue,
}
use krafton_week.Storage.Queues.View.{Queued}
use krafton_week.Storage.Queues.Order.{
  join, leave, pop, join_queue-Acts, pop_queue-Acts, leave_queue-Acts,
}

-- No user stands in the queue twice.
abbrev pub IsUnique : List String → Type 0
IsUnique [] = Unit
IsUnique (x ∷ xs) = (contains x xs ≡ false) × IsUnique xs

contains-append :
    (u v : String) (xs : List String)
    → contains u (xs ++ v ∷ []) ≡ (if v == u then true else contains u xs)
unfolding contains
contains-append u v [] = refl
contains-append u v (x ∷ xs) = ground (arith, contains-append u v xs)

pub contains-remove_other :
    (u v : String) (xs : List String)
    → u ≢ v
    → contains v xs ≡ true
    → contains v (remove u xs) ≡ true
unfolding contains remove
contains-remove_other u v [] ne h = h
contains-remove_other u v (x ∷ xs) ne h =
    ground (arith, contains-remove_other u v xs ne, eq_iff x u, eq_iff x v)

pub length-remove :
    (u : String) (xs : List String) → contains u xs ≡ true → length xs ≡ suc (length (remove u xs))
unfolding contains remove
length-remove u [] h = absurd cc
length-remove u (x ∷ xs) h = ground (arith, length-remove u xs)

contains-remove :
    (u v : String) (xs : List String) → contains u xs ≡ false → contains u (remove v xs) ≡ false
unfolding contains remove
contains-remove u v [] h = refl
contains-remove u v (x ∷ xs) h = ground (arith, contains-remove u v xs)

join-IsUnique :
    (u : String) (xs : List String) → IsUnique xs → contains u xs ≡ false → IsUnique (xs ++ u ∷ [])
unfolding contains
join-IsUnique u [] h new = (refl, tt)
join-IsUnique u (x ∷ xs) h new =
    ground (arith, join-IsUnique u xs h.1, contains-append x u xs, eq_iff u x, eq_iff x u)

remove-IsUnique : (u : String) (xs : List String) → IsUnique xs → IsUnique (remove u xs)
unfolding remove
remove-IsUnique u [] h = tt
remove-IsUnique u (x ∷ xs) h = ground (arith, remove-IsUnique u xs h.1, contains-remove x u xs h.0)

pub index-remove :
    (u v : String) (xs : List String)
    → IsUnique xs
    → contains u xs ≡ true
    → contains v xs ≡ true
    → u ≢ v
    → index v (remove u xs) + (if ltb (index u xs) (index v xs) then 1 else 0) ≡ index v xs
unfolding contains index remove
index-remove u v [] h hu hv ne = cc
index-remove u v (x ∷ xs) h hu hv ne =
    ground (arith, index-remove u v xs h.1, eq_iff x u, eq_iff x v)

-- A request on one queue.
pub data QueueRequest : Type 0 where
  join_request leave_request : String → QueueRequest
  pop_request : QueueRequest

abbrev pub after : {A : Type 0} → A × Store → Store
after (r, s) = s

unfoldable pub perform : String → QueueRequest → Store → Store
perform event_id (join_request u) s = (join_queue event_id u s).1
perform event_id (leave_request u) s = (leave_queue event_id u s).1
perform event_id pop_request s = (pop_queue event_id s).1

unfoldable pub perform_all : String → List QueueRequest → Store → Store
unfolding perform
perform_all event_id [] s = s
perform_all event_id (q ∷ qs) s = perform_all event_id qs (perform event_id q s)

-- The same on the list of users.
abbrev list_after : QueueRequest → List String → List String
list_after (join_request u) xs = (join u xs).1
list_after (leave_request u) xs = (leave u xs).1
list_after pop_request xs = (pop xs).1

abbrev pub list_after_all : List QueueRequest → List String → List String
list_after_all [] xs = xs
list_after_all (q ∷ qs) xs = list_after_all qs (list_after q xs)

list_after-IsUnique :
    (q : QueueRequest) (xs : List String) → IsUnique xs → IsUnique (list_after q xs)
list_after-IsUnique (join_request u) xs h = elim (Bool-cases (contains u xs)) [
  | inl e ↦ rw (e, IsUnique) h
  | inr e ↦ rw (e, IsUnique) (join-IsUnique u xs h e)
]
list_after-IsUnique (leave_request u) xs h = elim (Bool-cases (contains u xs)) [
  | inl e ↦ rw (e, IsUnique) (remove-IsUnique u xs h)
  | inr e ↦ rw (e, IsUnique) h
]
list_after-IsUnique pop_request [] h = tt
list_after-IsUnique pop_request (x ∷ xs) h = h.1

perform-Queued :
    (event_id : String) (q : QueueRequest) (s : Store) (xs : List String)
    → Queued s (queue_key event_id) xs
    → Queued (perform event_id q s) (queue_key event_id) (list_after q xs)
unfolding perform
perform-Queued event_id (join_request u) s xs h = (join_queue-Acts event_id s u xs h).queued
perform-Queued event_id (leave_request u) s xs h = (leave_queue-Acts event_id s u xs h).queued
perform-Queued event_id pop_request s xs h = (pop_queue-Acts event_id s xs h).queued

-- Where the entry stands for a list that has no user twice: over any run of requests the store follows the list of users, and nobody ever waits twice.
pub queue_never_doubles :
    (event_id : String) (qs : List QueueRequest) (s : Store) (xs : List String)
    → Queued s (queue_key event_id) xs
    → IsUnique xs
    → Queued (perform_all event_id qs s) (queue_key event_id) (list_after_all qs xs)
      × IsUnique (list_after_all qs xs)
unfolding perform_all
queue_never_doubles event_id [] s xs h unique = (h, unique)
queue_never_doubles event_id (q ∷ qs) s xs h unique =
    queue_never_doubles event_id qs (perform event_id q s) (list_after q xs)
      (perform-Queued event_id q s xs h) (list_after-IsUnique q xs unique)

abbrev popped : Result Error (Option String × ℕ) → Option String
popped (ok (u, n)) = u
popped (err e) = none

-- The users that `n` calls of `POP_QUEUE` return.
pub drain : String → ℕ → Store → List (Option String)
drain event_id zero s = []
drain event_id (suc n) s = let (r, s') = pop_queue event_id s in popped r ∷ drain event_id n s'

drain-Queued :
    (event_id : String) (xs : List String) (s : Store)
    → Queued s (queue_key event_id) xs
    → drain event_id (length xs) s ≡ map some xs
unfolding drain
drain-Queued event_id [] s h = refl
drain-Queued event_id (x ∷ xs) s h =
    let acts = pop_queue-Acts event_id s (x ∷ xs) h in
    let rest = drain-Queued event_id xs (pop_queue event_id s).1 acts.queued in
    ap₂ ◌∷◌ (ap popped acts.returns) rest

contains-middle :
    (x u : String) (xs us : List String) → contains x (xs ++ u ∷ us) ≡ false → (u == x) ≡ false
unfolding contains
contains-middle x u [] us h = ground arith
contains-middle x u (y ∷ xs) us h = ground (arith, contains-middle x u xs us)

contains-front :
    (u : String) (xs us : List String) → IsUnique (xs ++ u ∷ us) → contains u xs ≡ false
unfolding contains
contains-front u [] us h = refl
contains-front u (x ∷ xs) us h =
    ground
      (arith, contains-front u xs us h.1, contains-middle x u xs us h.0, eq_iff x u, eq_iff u x)

join_new :
    (u : String) (xs : List String)
    → contains u xs ≡ false
    → list_after (join_request u) xs ≡ xs ++ u ∷ []
join_new u xs e = ground arith

join_all :
    (us xs : List String) → IsUnique (xs ++ us) → list_after_all (map join_request us) xs ≡ xs ++ us
join_all [] xs h = sym (append-nil xs)
join_all (u ∷ us) xs h =
    ap (list_after_all (map join_request us)) (join_new u xs (contains-front u xs us h))
    ∙ (join_all us (xs ++ u ∷ []) (rw (append_assoc xs (u ∷ []) us) h)
        ∙ append_assoc xs (u ∷ []) us)

-- Users who join an empty queue, none of them twice, are served in the order in which they joined.
pub first_in_first_out :
    (event_id : String) (us : List String) (s : Store)
    → IsUnique us
    → lookup (queue_key event_id) s ≡ none
    → drain event_id (length us) (perform_all event_id (map join_request us) s) ≡ map some us
first_in_first_out event_id us s unique empty =
    let run = queue_never_doubles event_id (map join_request us) s [] empty tt in
    drain-Queued event_id us _ (
      subst (Queued (perform_all event_id (map join_request us) s) (queue_key event_id))
        (join_all us [] unique) run.0)
