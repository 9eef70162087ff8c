-- ===== src/GameServer.antt =====
-- services/gameserver/src/server.h and the basic operations of server.cpp: the state of the
-- WebSocket server and what its handlers do to it. A `WsSocket*` is the id of the socket; a use of
-- one that is closed is an error of its own.
pub mod Handlers
pub mod Quiet
pub mod Consistent
pub mod Leads
pub mod Invariant
pub mod GrpcClient
pub mod System
pub mod Runs
pub mod Sends
pub mod Plays
pub mod Moves
pub mod Boards
pub mod Messages
pub mod Mate
pub mod Quota
pub mod Resumption
pub mod Closing
pub mod Joining
use secure_chess.Prelude.{
  ℕ, suc, ◌+◌, ◌-◌, String, Bool, true, false, Option, none, some, List, [], ◌==◌, str_eq, ltb, not,
  find_first, exists, add_row, update_where, remove_where, if◌then◌else◌,
}
use secure_chess.Exec.{Exec, ok, err, closed_socket, pure, gets, modify, ◌>>=◌, ◌>>◌}

-- The enumerations of the chess library that the server tests.
pub data GameResultReason : Type 0 where
  checkmate stalemate insufficient_material fifty_move_rule threefold_repetition : GameResultReason
  other_reason : GameResultReason

pub data GameResult : Type 0 where
  result_none result_win result_lose result_draw : GameResult

-- The libraries: chess.hpp, nlohmann::json, and the length of a message in bytes.
pub record Engine : Type 1 where
  pub Board : Type 0
  pub Move : Type 0
  pub start : Board
  pub get_fen : Board → String
  -- `sideToMove() == WHITE`
  pub white_to_move : Board → Bool
  pub uci_to_move : Board → String → Move
  pub legal_moves : Board → List Move
  pub same_move : Move → Move → Bool
  pub make_move : Board → Move → Board
  pub is_game_over : Board → GameResultReason × GameResult
  pub Json : Type 0
  -- `none` if the text is discarded
  pub parse : String → Option Json
  -- `json.value(key, "")`: `none` if it throws (no object, or no text under the key)
  pub value : Json → String → Option String
  pub size : String → ℕ

-- `username` is never written.
pub record PerSocketData : Type 0 where
  pub socket_id : ℕ
  pub user_id : String
  pub game_id : String
  pub color : String
  pub msg_count : ℕ
  pub window_start_ms : ℕ

pub record VerifyResult : Type 0 where
  pub valid : Bool
  pub match_id : String
  pub player_id : String

pub record ResolveResult : Type 0 where
  pub valid : Bool
  pub match_id : String
  pub user_id : String
  pub color : String

-- the functions given to `enqueueGrpcJob`
pub data Job : Type 0 where
  verify_job : (socket_id : ℕ) (ticket color : String) → Job
  resume_job : (socket_id : ℕ) (token : String) → Job
  report_job : (game_id winner_id : String) (moves : List String) → Job

-- the functions given to `loop->defer`
pub data Deferred : Type 0 where
  join_verified :
      (socket_id : ℕ) (color : String) (verified : VerifyResult) (resume_token : String) → Deferred
  resume_resolved : (socket_id : ℕ) (resolved : ResolveResult) (new_token : String) → Deferred

-- the messages that are sent
pub data Message : Type 0 where
  error_message : String → Message
  joined : (color fen resume_token : String) → Message
  moved : (move fen turn : String) → Message
  game_over : (result reason : String) → Message
  resumed : (color fen : String) (moves : List String) (resume_token : String) → Message
  opponent_reconnected opponent_disconnected : Message

-- a gauge of the metrics, as its increments and decrements
pub record Gauge : Type 0 where
  pub ups : ℕ
  pub downs : ℕ

abbrev pub increment : Gauge → Gauge
increment g = record g { ups = suc g.ups }

abbrev pub decrement : Gauge → Gauge
decrement g = record g { downs = suc g.downs }

-- a room with its key in `rooms_`
pub record MatchRoom (e : Engine) : Type 0 where
  pub match_id : String
  pub white : Option ℕ
  pub black : Option ℕ
  pub board : e.Board
  pub move_history : List String

pub record Server (e : Engine) : Type 0 where
  pub rooms : List (MatchRoom e)
  -- the open sockets with their data
  pub sockets : List PerSocketData
  pub next_socket_id : ℕ
  pub jobs : List Job
  pub deferred : List Deferred
  -- what was sent, and to whom
  pub sent : List (ℕ × Message)
  pub connected_sockets : Gauge
  pub active_games : Gauge
  pub moves_total : ℕ
  -- the reasons that were counted
  pub errors : List String

abbrev pub is_socket : ℕ → PerSocketData → Bool
is_socket id d = d.socket_id == id

abbrev pub is_open : ℕ → List PerSocketData → Bool
is_open id sockets = exists (is_socket id) sockets

abbrev pub Live : Engine → Type 0 → Type 0
Live e A = Exec (Server e) A

module _ {e : Engine} where
  abbrev pub is_room : String → MatchRoom e → Bool
  is_room match_id room = str_eq room.match_id match_id

  -- `ws->getUserData()`
  unfoldable pub get_user_data : ℕ → Live e PerSocketData
  get_user_data id s = elim (find_first (is_socket id) s.sockets) [
    | none ↦ (err closed_socket, s)
    | some d ↦ (ok d, s)
  ]

  -- `ws->send(…)`
  unfoldable pub send : ℕ → Message → Live e Unit
  send id message = do
    get_user_data id
    modify (λ s. record s { sent = add_row s.sent (id, message) })

  abbrev pub send_if : Option ℕ → Message → Live e Unit
  send_if none message = pure tt
  send_if (some id) message = send id message

  unfoldable pub broadcast_to_room : MatchRoom e → Message → Live e Unit
  broadcast_to_room room message = do send_if room.white message; send_if room.black message

  unfoldable pub reply_error : ℕ → String → String → Live e Unit
  reply_error id reason text = do
    modify (λ s. record s { errors = add_row s.errors reason })
    send id (error_message text)

  -- a write through `ws->getUserData()`
  unfoldable pub set_user_data : ℕ → (PerSocketData → PerSocketData) → Live e Unit
  set_user_data id f = modify λ s. record s { sockets = update_where (is_socket id) f s.sockets }

  unfoldable pub enqueue_grpc_job : Job → Live e Unit
  enqueue_grpc_job job = modify (λ s. record s { jobs = add_row s.jobs job })

  abbrev pub find_room : String → List (MatchRoom e) → Option (MatchRoom e)
  find_room match_id rooms = find_first (is_room match_id) rooms

  abbrev pub new_room : String → MatchRoom e
  new_room match_id = record {
    match_id = match_id;
    white = none;
    black = none;
    board = e.start;
    move_history = [];
  }

  -- `rooms_[match_id]`
  abbrev pub room_at : String → List (MatchRoom e) → MatchRoom e
  room_at match_id rooms = elim (find_room match_id rooms) [
    | none ↦ new_room match_id
    | some room ↦ room
  ]

  abbrev pub set_slot : Bool → Option ℕ → MatchRoom e → MatchRoom e
  set_slot true ws room = record room { white = ws }
  set_slot false ws room = record room { black = ws }

  -- writes to the room that stands under the key
  unfoldable pub update_room : String → (MatchRoom e → MatchRoom e) → Live e Unit
  update_room match_id f =
      modify λ s. record s { rooms = update_where (is_room match_id) f s.rooms }

  -- the room is made first if there is none, and the gauge is raised
  unfoldable pub make_room : String → Live e Unit
  make_room match_id = modify λ s. if exists (is_room match_id) s.rooms then s else record s {
    rooms = add_row s.rooms (new_room match_id);
    active_games = increment s.active_games;
  }

  -- `rooms_.erase(match_id)` of a room that is there, and the gauge
  unfoldable pub drop_room : String → Live e Unit
  drop_room match_id = modify λ s. record s {
    rooms = remove_where (is_room match_id) s.rooms;
    active_games = decrement s.active_games;
  }
