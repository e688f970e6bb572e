-- ===== src/Lib.antt =====
-- Verification of the Mini Redis ticketing stack: a key-value server that holds seats and waiting
-- queues, and a database service that keeps reservations and payments.
--
-- The parts, and the files that model them:
--   storage/ttl.py           Storage/Ttl: options, deadlines and remaining time of EXPIRE
--   storage/engine.py        Storage/Engine: the dict of entries, GET, SET, DEL, EXPIRE, TTL, snapshots;
--                            Storage/Seats: the seat commands; Storage/Queues: the queue commands
--   commands/                Commands: validation, arguments, dispatch over StorageProtocol
--   server/executor.py       Server/Executor: the queue of commands and its worker
--   server/server.py         Server/Connection: the loop of a connection over the chunks it receives
--   protocol/                Protocol/Lines, Requests (parser, stream parser), Responses (encoders, with
--                            the replies of server/server.py)
--   app_server/redis_client.py  AppServer/RespClient: commands and replies; Methods: decoding;
--                            Calls: the client over the server, the handler and the engine
--   app_server/db_client.py  AppServer/DbClient: requests, with the handlers of exceptions of
--                            ticketing_api/app.py and app_server/app.py
--   ticketing_api/           Ticketing/Schema: rows and requests; Tables: the SQL that is used;
--                            Repository: the transactions; Service and Workflows: the methods;
--                            Lifecycle: runs of requests, and in Overlaps those that overlap
--   app_server/orchestration_log.py  AppServer/OrchestrationLog
--   app_server/reconciler.py         AppServer/Reconciler, over its two services as parameters
--   app_server/service.py    AppServer/Clients: exceptions, results and the protocols of both services;
--                            AppServer/Orchestrator: state, traces and simple requests; its children
--                            Steps (release, expiry, retries) and Reservations (hold, confirm, cancel,
--                            purchase); AppServer/Services: both services behind the protocols, and
--                            a connection to the engine that may fail, which Refusals uses
-- A definition has the name of the Python function that it models, without a leading underscore.
-- Commands reach the engine through the handler, the handler is called by the executor's worker, and
-- the reconciler brings the engine's seats in line with the reservations of the database. The
-- orchestrator calls both services through protocols of which Services gives the instance.
--
-- Shared: Prelude (tests, lists, integers), Effects (methods that raise, and triples of what holds
-- before and after them), Dict (Python dicts as lists of items in the order of insertion), Text
-- (upper, int, str and UTF-8), Json (dumps and loads of the standard library, as the seats and queues
-- use them: their round trip is loads-dumps in Json/RoundTrip).
--
-- How the code is modelled:
--   - A method that mutates an object takes the object's state and returns it beside its result or
--     exception. The engine's lock makes each of its methods one step. The database service has no such
--     lock: Ticketing/Lifecycle/Overlaps divides the requests that change a status into what runs between
--     two transactions, in any order with others; elsewhere a request is served before the next begins.
--   - A time of the engine is an integer number of microseconds; the source has floats, whose rounding
--     is not modelled. The clock is an argument of a method, read once in it. The service's clock is
--     any function from the number of times it has been read to a text.
--   - Integers are unbounded, as in Python.
--   - The texts of JSON are those without unpaired surrogates; numbers are kept as they are written, and
--     no depth is too great. The fuel of loads is the length of the text and one more, which is enough
--     for every document that dumps writes, as loads-dumps shows. upper and int know ASCII only.
--   - A table is the list of its rows. A statement that violates a constraint of the schema gives no
--     database, and the service meets it as an IntegrityError. The deletion of rows is not used.
--   - Bytes are numbers in a list, and what is left of a message stands for the index of the source. The
--     stream parser's loop and that of a connection have the length of the buffer as fuel, since a
--     command has a byte at least. Nested arrays of a reply have one more than the message's length, and
--     each level has a byte. What is sent is what is handed to the socket.
--   - In RespClient/Calls a command and its response are each one chunk, and the connection calls the
--     handler in place of the executor.
--   - What the orchestrator takes from Python's library, the clock's texts, uuid4 and the time that is so
--     many seconds ahead, are functions of how often it has been used. Its loop of attempts is structural
--     recursion on their number. The services' results are rows and records, not JSON.
--   - Where no failing connection is named, the engine answers every command of the orchestrator.
--   - The HTTP client of the library is a parameter, and its responses are documents of JSON; the
--     orchestrator is modelled over rows instead.
--   - The request's expires_at is given as normalize_timestamp writes it.
--
-- Not modelled: the sockets of app_server/redis_client.py, what an HTTP library does, the
-- sockets, threads, stop event and the background snapshots of server/server.py, the SQL of
-- storage/sqlite_store.py, the HTTP routes, demo data, the clients, scripts, the front end and the tests.
pub mod Prelude
pub mod Effects
pub mod Dict
pub mod Text
pub mod Json
pub mod Errors
pub mod Protocol
pub mod Storage
pub mod Commands
pub mod Ticketing
pub mod Server
pub mod AppServer
pub mod Tests
