-- ===== src/Server/Executor.antt =====
-- server/executor.py: a queue of commands and the workers that take from it. `execute` is two steps,
-- the submission and the read of the outcome, since its thread waits in between; an iteration of `_run`
-- is one step.
use mathlib.Core.Path.{ap₂}
use mathlib.Core.List.{append-nil, append_assoc}
use krafton_week.Prelude.{
  ℕ, suc, zero, ◌+◌, ◌-◌, String, ◌≡◌, refl, sym, ◌∙◌, ap, Bool, true, false, not, List, [], ◌∷◌,
  ◌++◌, map, length, eqb, arith, if◌then◌else◌,
}
use krafton_week.Effects.{Result, ok, err, Exec}
use krafton_week.Errors
use krafton_week.Commands.Handler.{CommandResult}

-- An entry of the queue: a task with its number, or the `None` of `stop`.
pub data Item : Type 0 where
  command_task : ℕ → List String → Item
  stop_marker : Item

abbrev Outcome : Type 0
Outcome = Result Errors.Error CommandResult

pub record SerialCommandExecutor (S : Type 0) : Type 0 where
  pub storage : S
  pub queue : List Item
  pub running : Bool
  -- how many worker threads are alive: `stop` waits for a second only
  pub workers : ℕ
  pub submitted : ℕ
  -- the tasks that are done, with their results or exceptions
  pub done : List (ℕ × Outcome)

-- What `execute` raises of its own.
pub data Refusal : Type 0 where
  not_running : Refusal
  not_done : Refusal

find_outcome : ℕ → List (ℕ × Outcome) → Result Refusal Outcome
find_outcome n [] = err not_done
find_outcome n ((m, outcome) ∷ done) = if eqb m n then ok outcome else find_outcome n done

module _ {S : Type 0} where
  unfoldable start : SerialCommandExecutor S → SerialCommandExecutor S
  start e = if e.running then e else record e { running = true; workers = suc e.workers }

  unfoldable stop : SerialCommandExecutor S → SerialCommandExecutor S
  stop e =
      if e.running then record e { running = false; queue = e.queue ++ stop_marker ∷ [] } else e

  -- The first half of `execute`: the number of the new task.
  pub submit : List String → Exec Refusal (SerialCommandExecutor S) ℕ
  submit command e = if not e.running then (err not_running, e) else (
    ok e.submitted,
    record e {
      queue = e.queue ++ command_task e.submitted command ∷ [];
      submitted = suc e.submitted;
    },
  )

  -- The second half: what the task came to, or the timeout.
  unfoldable outcome : ℕ → SerialCommandExecutor S → Result Refusal Outcome
  unfolding find_outcome
  outcome n e = find_outcome n e.done

-- The numbers that tasks get, from `m` on.
abbrev pub numbered : ℕ → List (List String) → List (ℕ × List String)
numbered m [] = []
numbered m (command ∷ commands) = (m, command) ∷ numbered (suc m) commands

length-numbered :
    (m : ℕ) (commands : List (List String)) → length (numbered m commands) ≡ length commands
length-numbered m [] = refl
length-numbered m (command ∷ commands) = ap suc (length-numbered (suc m) commands)

abbrev pub submit_all :
    {S : Type 0} → List (List String) → SerialCommandExecutor S → SerialCommandExecutor S
submit_all [] e = e
submit_all (command ∷ commands) e = submit_all commands (submit command e).1

abbrev as_item : ℕ × List String → Item
as_item (n, command) = command_task n command

submit_all-queue :
    {S : Type 0} (commands : List (List String)) (s : S) (q : List Item) (k m : ℕ)
    (done : List (ℕ × Outcome))
    → submit_all commands
        (record { storage = s; queue = q; running = true; workers = k; submitted = m; done = done })
      ≡ record {
        storage = s;
        queue = q ++ map as_item (numbered m commands);
        running = true;
        workers = k;
        submitted = length commands + m;
        done = done;
      }
unfolding submit
submit_all-queue [] s q k m done =
    ap₂
      (λ (xs : List Item) (n : ℕ). record {
        storage = s;
        queue = xs;
        running = true;
        workers = k;
        submitted = n;
        done = done;
      })
      (sym (append-nil q)) (omega arith)
submit_all-queue {S} (command ∷ commands) s q k m done =
    submit_all-queue commands s (q ++ command_task m command ∷ []) k (suc m) done
    ∙ ap₂
        (λ (xs : List Item) (n : ℕ). record {
          storage = s;
          queue = xs;
          running = true;
          workers = k;
          submitted = n;
          done = done;
        })
        (append_assoc q (command_task m command ∷ []) (map as_item (numbered (suc m) commands)))
        (omega arith)

module _ {S : Type 0} (command_handler : List String → Exec Errors.Error S CommandResult) where
  abbrev take_item : Item → SerialCommandExecutor S → SerialCommandExecutor S
  take_item stop_marker e = record e { workers = e.workers - 1 }
  take_item (command_task n command) e =
      let (result, storage') = command_handler command e.storage in
      record e { storage = storage'; done = e.done ++ (n, result) ∷ [] }

  abbrev next_item : List Item → SerialCommandExecutor S → SerialCommandExecutor S
  next_item [] e = e
  next_item (item ∷ queue) e = take_item item (record e { queue = queue })

  -- An iteration of a worker, which does nothing where none is alive or the queue is empty.
  pub work : SerialCommandExecutor S → SerialCommandExecutor S
  work e = elim e.workers [ zero ↦ e | suc _ ↦ next_item e.queue e ]

  -- What the commands come to, one after the other: an exception of one does not stop the next.
  abbrev pub serial : List (ℕ × List String) → S → List (ℕ × Outcome) × S
  serial [] s = ([], s)
  serial ((n, command) ∷ tasks) s =
      let (result, s') = command_handler command s in
      let (outcomes, s'') = serial tasks s' in ((n, result) ∷ outcomes, s'')

  abbrev pub work_all : ℕ → SerialCommandExecutor S → SerialCommandExecutor S
  work_all zero e = e
  work_all (suc n) e = work_all n (work e)

  work_all-tasks :
      (tasks : List (ℕ × List String)) (s : S) (rest : List Item) (running : Bool) (k m : ℕ)
      (done : List (ℕ × Outcome))
      → work_all (length tasks) (record {
        storage = s;
        queue = map as_item tasks ++ rest;
        running = running;
        workers = suc k;
        submitted = m;
        done = done;
      })
        ≡ record {
          storage = (serial tasks s).1;
          queue = rest;
          running = running;
          workers = suc k;
          submitted = m;
          done = done ++ (serial tasks s).0;
        }
  unfolding work
  work_all-tasks [] s rest running k m done =
      ap
        (λ (xs : List (ℕ × Outcome)). record {
          storage = s;
          queue = rest;
          running = running;
          workers = suc k;
          submitted = m;
          done = xs;
        })
        (sym (append-nil done))
  work_all-tasks ((n, command) ∷ tasks) s rest running k m done =
      let (result, s') = command_handler command s in
      work_all-tasks tasks s' rest running k m (done ++ (n, result) ∷ [])
      ∙ ap
          (λ (xs : List (ℕ × Outcome)). record {
            storage = (serial tasks s').1;
            queue = rest;
            running = running;
            workers = suc k;
            submitted = m;
            done = xs;
          })
          (append_assoc done ((n, result) ∷ []) (serial tasks s').0)

  -- Commands that are submitted to a running executor, which has a worker and no other task waiting,
  -- are performed by as many iterations, in the order of their submission: the storage and the
  -- outcomes, under the tasks' numbers, are those of performing them one after the other.
  pub served_in_order :
      (commands : List (List String)) (s : S) (k m : ℕ) (done : List (ℕ × Outcome))
      → work_all (length commands) (
          submit_all commands (record {
            storage = s;
            queue = [];
            running = true;
            workers = suc k;
            submitted = m;
            done = done;
          }))
        ≡ record {
          storage = (serial (numbered m commands) s).1;
          queue = [];
          running = true;
          workers = suc k;
          submitted = length commands + m;
          done = done ++ (serial (numbered m commands) s).0;
        }
  served_in_order commands s k m done =
      ap (work_all (length commands)) (submit_all-queue commands s [] (suc k) m done)
      ∙ (ap₂
            (λ (n : ℕ) (xs : List Item). work_all n (record {
              storage = s;
              queue = xs;
              running = true;
              workers = suc k;
              submitted = length commands + m;
              done = done;
            }))
            (sym (length-numbered m commands))
            (sym (append-nil (map as_item (numbered m commands))))
          ∙ work_all-tasks (numbered m commands) s [] true k (length commands + m) done)
