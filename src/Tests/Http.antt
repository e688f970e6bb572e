-- ===== src/Tests/Http.antt =====
-- app_server/db_client.py: an exception of the database service on its way to the front end.
use krafton_week.Prelude.{String, ◌≡◌, refl, Option, none, some}
use krafton_week.Effects.{Exec, ok, err}
use krafton_week.Json.{Json}
use krafton_week.AppServer.Clients.{AppServerError}
use krafton_week.AppServer.DbClient.{
  HttpResponse, ServiceException, contradiction, service_response, handle_exception, request,
  service_exceptions_pass,
}

abbrev refused : ServiceException
refused = contradiction "seat 'A1' is already confirmed"

-- A database service that refuses every request.
abbrev http : String → String → Option Json → Exec String (Unit {0}) HttpResponse
http method url json s = (
  ok (record { status_code = 409; body = "{}"; json = ok (service_response refused).content }),
  s,
)

service_exceptions_pass_example :
    (x : AppServerError) × (request http "POST" "/reservations/r1/confirm" none tt ≡ (err x, tt))
    × (handle_exception x ≡ some (service_response refused))
service_exceptions_pass_example =
    service_exceptions_pass http refused "POST" "/reservations/r1/confirm" none "{}" tt tt refl
