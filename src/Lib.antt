-- ===== src/Lib.antt =====
-- Secure Chess: the control plane (Python, services/api) and the game server (C++,
-- services/gameserver/src), verified as a library.
--
-- The control plane is a FastAPI application with a gRPC server beside it. Players sign up, sign
-- in, refresh and log out (services/api/auth/jwt_routes.py), ask for a match and pick up their
-- tickets (services/api/matchmaking/routes.py); the game server verifies tickets, reports ends of
-- games and handles resume tokens (services/api/rpc/servicer.py). All calls share the tables of
-- PostgreSQL (infra/tables.sql and infra/migrations/adding_audit_logs.sql), a Redis server and the
-- global Redis client. Players connect to the game server by WebSocket, join a match with its
-- ticket, move, and resume a match (services/gameserver/src/server.cpp); its workers call the
-- servicer (services/gameserver/src/grpc_client.cpp).
--
-- Files and what they model:
--   Prelude       helpers on booleans, texts, rows of tables and decimals
--   Exec          what a call raises (`Error`) and calls as actions on a state (`Exec`, `>>=`)
--   Platform      the environment variables, the third-party code as parameters (`Platform`), the
--                 shared state (`World`) with clock, tables, Redis store, client, draws of
--                 randomness and connections; Platform.Tables the rows, Platform.Redis the commands,
--                 Platform.Calls a transaction, a Redis call, the clock, Platform.Keeps invariants
--   Jwt           services/api/auth/jwt_helpers.py
--   UserHelpers   services/api/utils/user_helpers.py
--   RedisClient   services/api/utils/redis_client.py
--   RateLimit     services/api/middleware/rate_limit.py
--   Sql           the SQL statements of all files, with the constraints of the tables
--   Audit         services/api/utils/audit.py
--   Auth          services/api/auth/jwt_routes.py, each route as a handler under its limiter
--   Matchmaking   services/api/matchmaking/routes.py and matchmaking_helpers.py
--   Servicer      services/api/rpc/servicer.py
--   Service       all calls together, served one after the other, with time passing between them
--   GameServer    services/gameserver/src/server.h and the operations of server.cpp;
--                 GameServer.Handlers the handlers of `run` and the deferred functions, each with
--                 the name of its handler or message (`on_open`, `on_message`, `on_move`, ...),
--                 GameServer.GrpcClient grpc_client.cpp and the jobs (`run_job`), GameServer.System
--                 both servers as one step relation; the others are proofs: Quiet, Consistent,
--                 Leads, Invariant and Runs the invariant, Sends, Plays, Moves, Boards, Messages
--                 and Mate the moves, Closing, Joining, Resumption and Quota what their names say
--   Sample        concrete parameters that meet every hypothesis
--   Tests         the theorems at concrete inputs
--
-- A call takes a world to its result, or what it raises, and the world after it. Times are
-- microseconds of UTC, UUIDs are numbers with a text each. A transaction that raises restores the
-- tables. A Redis command may fail at any call. The bodies of requests are those that pydantic
-- accepted, so numbers that it bounds below by 0 are natural numbers.
--
-- The state of the game server has its rooms, the data of its open sockets, the jobs that wait,
-- the deferred functions, the messages that were sent, and the metrics. A socket is its id; to use
-- one that is closed is an error (`closed_socket`), and so is an exception that nothing catches.
-- `.close` runs at `ws->close()`. The workers finish the jobs in any order that four workers can;
-- the two calls of a job run one right after the other. Each call meets a network that may lose
-- the request or the reply. The counter of a socket's messages is a natural number: to overflow an
-- int, one socket would have to send 2 ^ 31 messages in a second.
--
-- Parameters: PyJWT, passlib, hashlib, the random sources, json, the texts of UUIDs, the faults
-- of PostgreSQL, the Redis server, chess.hpp and nlohmann::json (`Engine`). What a theorem relies
-- on of them is a named record of laws (Jwt.Laws, RateLimit.Laws, Platform.TextLaws,
-- Platform.ListLaws) or a hypothesis. The only function on fuel is `digits`
-- of Prelude.Decimal, with n + 1 rounds for the number n, enough since each divides by ten; all
-- other recursion is structural.
--
-- Not modelled: services/api/main.py and rpc/server.py (wiring of third-party packages), the
-- generated gRPC code, main.cpp and config.cpp of the game server, its console output and its
-- histogram, the front end, the load tests and the scripts. Calls of the control plane do not
-- interleave, and neither do the handlers of the game server: each runs from its start to its end.
pub mod Prelude
pub mod Exec
pub mod Platform
pub mod Jwt
pub mod UserHelpers
pub mod RedisClient
pub mod RateLimit
pub mod Sql
pub mod Audit
pub mod Auth
pub mod Matchmaking
pub mod Servicer
pub mod Service
pub mod GameServer
pub mod Sample
pub mod Tests
