-- ===== src/Tests/Queues.antt =====
-- storage/engine.py: a waiting queue.
use krafton_week.Prelude.{
  ℕ, suc, ◌+◌, String, ◌≡◌, refl, true, false, none, some, List, [], ◌∷◌, map, eq_iff, length, ltb,
  pos, if◌then◌else◌,
}
use krafton_week.Effects.{ok}
use krafton_week.Dict.{lookup}
use krafton_week.Storage.Engine.{Store}
use krafton_week.Storage.Queues.{
  queue_key, serialize_queue, contains, join_queue, queue_position, pop_queue, leave_queue,
  peek_queue,
}
use krafton_week.Storage.Queues.View.{Queued}
use krafton_week.Storage.Queues.Order.{
  Acts, join, leave, pop, join_queue-Acts, pop_queue-Acts, leave_queue-Acts,
}
use krafton_week.Storage.Queues.Places.{pops, position_tells_turn, leaving_moves_up}
use krafton_week.Storage.Queues.Fairness.{
  IsUnique, QueueRequest, join_request, leave_request, pop_request, perform_all, list_after_all,
  queue_never_doubles, drain, first_in_first_out,
}

abbrev users : List String
users = "ann" ∷ "bob" ∷ "eve" ∷ []

abbrev key : String
key = queue_key "show"

abbrev waiting : Store
waiting = (key, record { value = serialize_queue users; expires_at = none }) ∷ []

users-IsUnique : IsUnique users
unfolding contains
users-IsUnique = (refl, (refl, (refl, tt)))

waiting-Queued : Queued waiting key users
unfolding lookup queue_key
waiting-Queued = refl

first_in_first_out_example :
    drain "show" (length users) (perform_all "show" (map join_request users) []) ≡ map some users
unfolding lookup
first_in_first_out_example = first_in_first_out "show" users [] users-IsUnique refl

abbrev run : List QueueRequest
run = join_request "ann" ∷ pop_request ∷ join_request "ann" ∷ leave_request "bob" ∷ []

queue_never_doubles_example :
    Queued (perform_all "show" run waiting) key (list_after_all run users)
    × IsUnique (list_after_all run users)
queue_never_doubles_example =
    queue_never_doubles "show" run waiting users waiting-Queued users-IsUnique

join_queue-Acts_example :
    let (r, s') = join_queue "show" "joe" waiting in
    Acts key waiting r s' (join "joe" users).0 (join "joe" users).1
join_queue-Acts_example = join_queue-Acts "show" waiting "joe" users waiting-Queued

pop_queue-Acts_example :
    let (r, s') = pop_queue "show" waiting in Acts key waiting r s' (pop users).0 (pop users).1
pop_queue-Acts_example = pop_queue-Acts "show" waiting users waiting-Queued

leave_queue-Acts_example :
    let (r, s') = leave_queue "show" "bob" waiting in
    Acts key waiting r s' (leave "bob" users).0 (leave "bob" users).1
leave_queue-Acts_example = leave_queue-Acts "show" waiting "bob" users waiting-Queued

position_tells_turn_example :
    (n left : ℕ) × (queue_position "show" "eve" waiting ≡ (ok (pos (suc n), n + left), waiting))
    × (peek_queue "show" (pops "show" n waiting) ≡ (ok (some "eve", left), pops "show" n waiting))
unfolding contains
position_tells_turn_example = position_tells_turn "show" "eve" users waiting waiting-Queued refl

leaving_moves_up_example :
    let (told, s') = leave_queue "show" "bob" waiting in
    (k before after left : ℕ) × (told ≡ ok (true, pos (suc k), left))
    × (queue_position "show" "eve" waiting ≡ (ok (pos (suc before), suc left), waiting))
    × (queue_position "show" "eve" s' ≡ (ok (pos (suc after), left), s'))
    × (after + (if ltb k before then 1 else 0) ≡ before)
unfolding contains
leaving_moves_up_example =
    leaving_moves_up "show" "bob" "eve" users waiting waiting-Queued users-IsUnique refl refl
      (λ p. let same : false ≡ true = (eq_iff "bob" "eve").1 p in cc)
