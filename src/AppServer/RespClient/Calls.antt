-- ===== src/AppServer/RespClient/Calls.antt =====
-- app_server/redis_client.py over server/server.py: a seat command from the client's method through
-- both encodings to the engine and back. The socket passes the bytes of a command, and of its response,
-- in one chunk.
use krafton_week.Prelude.{String, ◌≡◌, refl, ◌∙◌, ap, Bool, List, [], ◌∷◌, map, ℤ}
use krafton_week.Effects.{Result, ok, Exec, lift, ◌>>=◌}
use krafton_week.Errors.{Error}
use krafton_week.Text.{utf8, upper}
use krafton_week.Storage.Engine.{Store}
use krafton_week.Storage.Seats.{SeatStatus}
use krafton_week.Storage.Seats.Requests.{
  SeatRequest, reserve_request, confirm_request, release_request, perform,
}
use krafton_week.Commands.Handler.{
  CommandResult, handle_command, engine_storage, seat_operation_result,
}
use krafton_week.Commands.Handler.SeatRequests.{tokens_of, handle_command-perform}
use krafton_week.Protocol.Responses.{EncodeError, encode_result_value, encode_command_result}
use krafton_week.Server.Connection.{Connection, receive}
use krafton_week.Server.Connection.Order.{answer, or_text, commands_answered_in_order}
use krafton_week.AppServer.Clients.{AppServerError, SeatCommandResult, RedisClientProtocol}
use krafton_week.AppServer.Services.{command_result}
use krafton_week.AppServer.RespClient.{RespReply, encode_command}
use krafton_week.AppServer.RespClient.Replies.{result_reply}
use krafton_week.AppServer.RespClient.Results.{read_reply-encode_result_value, decode-command}
use krafton_week.AppServer.RespClient.Methods.{read_reply, redis_client, decode_seat_command}

abbrev pub seat_method :
    {S : Type 0} → RedisClientProtocol S → SeatRequest → Exec AppServerError S SeatCommandResult
seat_method redis (reserve_request e t u secs) = redis.reserve_seat e t u secs
seat_method redis (confirm_request e t u) = redis.confirm_seat e t u
seat_method redis (release_request e t u) = redis.release_seat e t u

module _ (now : ℤ) (describe : Error → String × String) where
  abbrev execute : List String → Exec Error Store CommandResult
  execute = handle_command (engine_storage now)

  abbrev idle : Store → Connection Store
  idle store = record { buffer = []; storage = store; sent = [] }

  -- `execute` of the client, on a connection to the server whose clock reads `now`.
  abbrev pub over_the_wire : List String → Exec AppServerError Store RespReply
  over_the_wire tokens store =
      let (_, c) = receive execute describe (encode_command tokens []) (idle store) in
      (read_reply [] (map utf8 c.sent), c.storage)

  encode_command_result-tokens_of :
      (request : SeatRequest) (result : CommandResult)
      → encode_command_result (tokens_of request) result ≡ ok (encode_result_value result)
  unfolding encode_command_result upper
  encode_command_result-tokens_of (reserve_request e t u secs) result = refl
  encode_command_result-tokens_of (confirm_request e t u) result = refl
  encode_command_result-tokens_of (release_request e t u) result = refl

  abbrev decoded :
      Result AppServerError RespReply × Store → Result AppServerError SeatCommandResult × Store
  decoded x = ((λ (_ : Store). x) >>= λ reply. lift (decode_seat_command reply)) x.1

  seat_method-over_the_wire :
      (request : SeatRequest) (store : Store)
      → seat_method (redis_client over_the_wire) request store
        ≡ decoded (over_the_wire (tokens_of request) store)
  unfolding redis_client
  seat_method-over_the_wire (reserve_request e t u secs) store = refl
  seat_method-over_the_wire (confirm_request e t u) store = refl
  seat_method-over_the_wire (release_request e t u) store = refl

  module _ (store store' : Store) (success : Bool) (status : SeatStatus) (request : SeatRequest)
      (performed : perform now request store ≡ (ok (success, status), store')) where
    abbrev tokens : List String
    tokens = tokens_of request

    abbrev result : CommandResult
    result = seat_operation_result (success, status)

    over_the_wire-perform : over_the_wire tokens store ≡ (ok (result_reply result), store')
    over_the_wire-perform =
        ap
          (λ (x : Result EncodeError (Unit {0}) × Connection Store).
            (read_reply [] (map utf8 x.1.sent), x.1.storage))
          (commands_answered_in_order execute describe (tokens ∷ []) (encode_command tokens []) []
            (idle store) refl tt)
        ∙ ap
            (λ (x : Result Error CommandResult × Store).
              (read_reply [] (utf8 (answer execute describe tokens x.0) ∷ []), x.1))
            (handle_command-perform now store store' (success, status) request performed)
        ∙ ap
            (λ (x : Result EncodeError String).
              (read_reply [] (utf8 (or_text execute describe x) ∷ []), store'))
            (encode_command_result-tokens_of request result)
        ∙ ap (λ (x : Result AppServerError RespReply). (x, store'))
            (read_reply-encode_result_value result)

    -- When the engine performs a seat request and returns, the client's method returns that result over
    -- the connection to the server, and leaves the engine's store as the request does.
    pub seat_request_arrives :
        seat_method (redis_client over_the_wire) request store
        ≡ (ok (command_result (success, status)), store')
    seat_request_arrives =
        seat_method-over_the_wire request store
        ∙ ap decoded over_the_wire-perform
        ∙ ap (λ (x : Result AppServerError SeatCommandResult). (x, store'))
            (decode-command success status.state status.user_id status.ttl)
