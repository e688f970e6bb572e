-- ===== src/Tests/Shows.antt =====
-- An engine and a database with an event of one seat, and what the orchestrator takes from its library.
use krafton_week.Prelude.{ℕ, String, none, some, List, [], ◌∷◌, pos}
use krafton_week.Effects.{ok}
use krafton_week.Storage.Engine.{Store}
use krafton_week.Storage.Seats.{seat_key, held_entry}
use krafton_week.Ticketing.Schema.{Event, User, Seat, Reservation, held}
use krafton_week.Ticketing.Service.{World}
use krafton_week.AppServer.OrchestrationLog.{empty_log}
use krafton_week.AppServer.Services.{Services, Setting}
use krafton_week.AppServer.Orchestrator.{App}

abbrev pub clock : ℕ → String
clock n = "2024-05-01T10:00:00+00:00"

abbrev pub setting : Setting
setting = record {
  now = λ n. pos n;
  clock = clock;
  message = λ e. "error";
  detail = λ e. "detail";
  log_time = clock;
  uuid_hex = λ n. "ab";
  seconds_ahead = λ n secs. ok "2024-05-01T10:05:00+00:00";
}

abbrev pub show : Event
show = record {
  event_id = "show";
  title = "Show";
  venue = "Hall";
  starts_at = clock 0;
  booking_opens_at = clock 0;
  created_at = clock 0;
}

abbrev seat_a1 : Seat
seat_a1 = record {
  event_id = "show";
  seat_id = "A1";
  seat_label = "A1";
  section = "A";
  row_label = "1";
  seat_number = pos 1;
  price = pos 100;
  created_at = clock 0;
}

abbrev pub ann : User
ann = record { user_id = "ann"; display_name = "Ann"; email = "a@x"; created_at = clock 0 }

abbrev pub reservation : Reservation
reservation = record {
  reservation_id = "r1";
  event_id = "show";
  seat_id = "A1";
  user_id = "ann";
  status = held;
  hold_token = some "r1";
  expires_at = some "2024-05-01T10:05:00+00:00";
  created_at = clock 0;
  updated_at = clock 0;
  confirmed_at = none;
  cancelled_at = none;
}

abbrev pub world : List Reservation → World
world reservations = record {
  db = record {
    events = show ∷ [];
    users = ann ∷ [];
    seats = seat_a1 ∷ [];
    reservations = reservations;
    payments = [];
  };
  reads = 0;
}

abbrev pub app : Store → List Reservation → App Services
app store reservations = record {
  services = record { store = store; ticks = 0; world = world reservations };
  log = empty_log 200;
  draws = 0;
}

abbrev pub holding : App Services
holding = app ((seat_key "show" "A1", held_entry "ann" (pos 30000)) ∷ []) (reservation ∷ [])
