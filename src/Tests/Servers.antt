-- ===== src/Tests/Servers.antt =====
-- server/executor.py with the commands of the engine, and app_server/orchestration_log.py.
use krafton_week.Prelude.{suc, ◌+◌, String, ◌≡◌, true, none, List, [], ◌∷◌, length, take, pos}
use krafton_week.Errors.{Error}
use krafton_week.Effects.{Exec}
use krafton_week.Storage.Engine.{Store}
use krafton_week.Commands.Handler.{CommandResult, engine_storage, handle_command}
use krafton_week.Server.Executor.{submit_all, numbered, serial, work_all, served_in_order}
use krafton_week.AppServer.OrchestrationLog.{
  OrchestrationLogEntry, empty_log, list_entries, record_all, all_records, list_entries_latest,
}

abbrev handler : List String → Exec Error Store CommandResult
handler = handle_command (engine_storage (pos 5000000))

abbrev commands : List (List String)
commands = ("SET" ∷ "a" ∷ "1" ∷ []) ∷ ("NOPE" ∷ []) ∷ ("GET" ∷ "a" ∷ []) ∷ []

served_in_order_example :
    work_all handler (length commands) (
      submit_all commands (record {
        storage = [];
        queue = [];
        running = true;
        workers = suc 0;
        submitted = 7;
        done = [];
      }))
    ≡ record {
      storage = (serial handler (numbered 7 commands) []).1;
      queue = [];
      running = true;
      workers = suc 0;
      submitted = length commands + 7;
      done = (serial handler (numbered 7 commands) []).0;
    }
served_in_order_example = served_in_order handler commands [] 0 7 []

abbrev entry : String → OrchestrationLogEntry
entry action = record {
  timestamp = "2024-05-01T10:00:00+00:00";
  source = "app-server";
  target = "redis";
  action = action;
  status = "ok";
  event_id = none;
  seat_id = none;
  user_id = none;
  detail = none;
}

abbrev entries : List OrchestrationLogEntry
entries = entry "a" ∷ entry "b" ∷ entry "c" ∷ []

list_entries_latest_example :
    list_entries 1 (record_all entries (empty_log 2)) ≡ take 1 (take 2 (all_records entries []))
list_entries_latest_example = list_entries_latest 2 1 entries
