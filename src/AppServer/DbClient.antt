-- ===== src/AppServer/DbClient.antt =====
-- app_server/db_client.py: the exceptions of a request to the database service, between the handlers of
-- exceptions in ticketing_api/app.py and in app_server/app.py. `http` is the library's client: the
-- response to a method, a URL and a body, or the text of an exception.
use Prim.Native.String.{◌++◌ as ◌<>◌}
use krafton_week.Prelude.{
  ℕ, String, ◌≡◌, refl, ap, Bool, ◌||◌, Option, none, some, pos, eqb, ◌==◌, if◌then◌else◌,
}
use krafton_week.Effects.{Result, ok, err, bind_result, Exec, lift, ◌>>=◌}
use krafton_week.Text.{strip, print_int}
use krafton_week.Json.{Json, text, object, end, field, get_field}
use krafton_week.AppServer.Clients.{AppServerError, not_found, conflict, upstream, other_exception}

-- `HTTPResponseProtocol`; `json` is the document, or the text of an exception.
pub record HttpResponse : Type 0 where
  pub status_code : ℕ
  pub body : String
  pub json : Result String Json

pub record JsonResponse : Type 0 where
  pub status_code : ℕ
  pub content : Json

abbrev detail_response : ℕ → String → JsonResponse
detail_response status_code detail = record {
  status_code = status_code;
  content = object (field "detail" (text detail) end);
}

-- The exceptions that the database service has handlers for, with `str(exc)`.
pub data ServiceException : Type 0 where
  missing contradiction : String → ServiceException

abbrev pub service_response : ServiceException → JsonResponse
service_response (missing message) = detail_response 404 message
service_response (contradiction message) = detail_response 409 message

-- The handlers of the app server; other exceptions have none.
abbrev pub handle_exception : AppServerError → Option JsonResponse
handle_exception (not_found message) = some (detail_response 404 message)
handle_exception (conflict message) = some (detail_response 409 message)
handle_exception (upstream message) = some (detail_response 502 message)
handle_exception (other_exception message) = none

-- `response.text.strip() or "unknown DB error"`
abbrev body_or_unknown : String → String
body_or_unknown body = if strip body == "" then "unknown DB error" else strip body

abbrev detail_or : Option Json → String → String
detail_or (some (text detail)) body = detail
detail_or value body = body_or_unknown body

abbrev detail_of : Result String Json → String → String
detail_of (ok (object fields)) body = detail_or (get_field "detail" fields) body
detail_of json body = body_or_unknown body

abbrev extract_detail : HttpResponse → String
extract_detail response = detail_of response.json response.body

-- The exception of a status that is not of success.
abbrev status_error : ℕ → String → AppServerError
status_error status detail =
    if eqb status 404
    then not_found detail
    else if eqb status 409
    then conflict detail
    else upstream ("DB request failed with status " <> (print_int (pos status) <> (": " <> detail)))

abbrev is_success : ℕ → Bool
is_success status = eqb status 200 || eqb status 201

abbrev check_response : HttpResponse → Result AppServerError HttpResponse
check_response response =
    if is_success response.status_code
    then ok response
    else err (status_error response.status_code (extract_detail response))

abbrev checked : Result String HttpResponse → Result AppServerError HttpResponse
checked (ok response) = check_response response
checked (err message) = err (upstream ("DB request failed: " <> message))

abbrev or_exception : Result String Json → Result AppServerError Json
or_exception (ok json) = ok json
or_exception (err message) = err (other_exception message)

module _ {S : Type 0} (http : String → String → Option Json → Exec String S HttpResponse) where
  abbrev pub request : String → String → Option Json → Exec AppServerError S HttpResponse
  request method url json s = let (r, s') = http method url json s in (checked r, s')

  -- `response.json()`, whose exception the client does not catch
  abbrev parsed : HttpResponse → Result AppServerError Json
  parsed response = or_exception response.json

  abbrev request_json : String → String → Option Json → Exec AppServerError S Json
  request_json method url json = do response ← request method url json; lift (parsed response)

  abbrev list_events : Exec AppServerError S Json
  list_events = request_json "GET" "/events" none

  abbrev list_event_seats : String → Exec AppServerError S Json
  list_event_seats event_id = request_json "GET" ("/events/" <> (event_id <> "/seats")) none

  abbrev with_created : HttpResponse → Result AppServerError (Json × Bool)
  with_created response =
      bind_result (parsed response) (λ json. ok (json, eqb response.status_code 201))

  abbrev create_held_reservation : Json → Exec AppServerError S (Json × Bool)
  create_held_reservation payload = do
    response ← request "POST" "/reservations/held" (some payload)
    lift (with_created response)

  abbrev reservation_url : String → String → String
  reservation_url reservation_id action = "/reservations/" <> (reservation_id <> action)

  abbrev confirm_reservation : String → Json → Exec AppServerError S Json
  confirm_reservation reservation_id payload =
      request_json "POST" (reservation_url reservation_id "/confirm") (some payload)

  abbrev cancel_reservation : String → Json → Exec AppServerError S Json
  cancel_reservation reservation_id payload =
      request_json "POST" (reservation_url reservation_id "/cancel") (some payload)

  abbrev expire_reservation : String → Exec AppServerError S Json
  expire_reservation reservation_id =
      request_json "POST" (reservation_url reservation_id "/expire") none

  abbrev list_user_reservations : String → Exec AppServerError S Json
  list_user_reservations user_id =
      request_json "GET" ("/users/" <> (user_id <> "/reservations")) none

  -- The service's answer, as the client receives it: the library passes on the status and the
  -- document.
  abbrev received : String → JsonResponse → HttpResponse
  received body response = record {
    status_code = response.status_code;
    body = body;
    json = ok response.content;
  }

  -- Where the database service answers a request with its handler of an exception, the client raises
  -- an exception that the app server answers with the same status and the same detail.
  pub service_exceptions_pass :
      (e : ServiceException) (method url : String) (json : Option Json) (body : String) (s s' : S)
      → http method url json s ≡ (ok (received body (service_response e)), s')
      → (x : AppServerError) × (request method url json s ≡ (err x, s'))
        × (handle_exception x ≡ some (service_response e))
  unfolding get_field
  service_exceptions_pass (missing message) method url json body s s' h =
      (not_found message, ap (λ (p : Result String HttpResponse × S). (checked p.0, p.1)) h, refl)
  service_exceptions_pass (contradiction message) method url json body s s' h =
      (conflict message, ap (λ (p : Result String HttpResponse × S). (checked p.0, p.1)) h, refl)
