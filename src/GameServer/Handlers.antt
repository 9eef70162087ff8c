-- ===== src/GameServer/Handlers.antt =====
-- services/gameserver/src/server.cpp: the handlers of `run`, and the functions that they defer.
use secure_chess.Prelude.{
  ℕ, suc, ◌-◌, String, Bool, true, false, Option, none, some, List, str_eq, ltb, not, exists,
  add_row, remove_where, if◌then◌else◌,
}
use secure_chess.Exec.{uncaught_exception, pure, gets, modify, or_raise, ◌>>=◌, ◌>>◌}
use secure_chess.GameServer.{
  Engine, PerSocketData, VerifyResult, ResolveResult, verify_job, resume_job, report_job, Deferred,
  join_verified, resume_resolved, joined, moved, game_over, resumed, opponent_reconnected,
  opponent_disconnected, GameResultReason, checkmate, stalemate, insufficient_material,
  fifty_move_rule, threefold_repetition, other_reason, GameResult, result_none, result_lose,
  increment, decrement, MatchRoom, is_socket, is_open, Live, get_user_data, send, broadcast_to_room,
  reply_error, set_user_data, enqueue_grpc_job, find_room, room_at, set_slot, update_room,
  make_room, drop_room,
}

abbrev pub max_message_bytes : ℕ
max_message_bytes = 1024

abbrev pub rate_limit_max : ℕ
rate_limit_max = 10

abbrev pub rate_window_ms : ℕ
rate_window_ms = 1000

-- The window of a socket at a message. The clock is steady, so the difference is not negative.
abbrev pub count_message : ℕ → PerSocketData → PerSocketData
count_message now_ms d =
    if ltb rate_window_ms (now_ms - d.window_start_ms)
    then record d { window_start_ms = now_ms; msg_count = 1 }
    else record d { msg_count = suc d.msg_count }

abbrev pub is_white : String → Bool
is_white color = str_eq color "white"

-- `a == b` of two Booleans
abbrev pub same_bool : Bool → Bool → Bool
same_bool true b = b
same_bool false b = not b

abbrev pub reason_str : GameResultReason → String
reason_str checkmate = "checkmate"
reason_str stalemate = "stalemate"
reason_str insufficient_material = "insufficient_material"
reason_str fifty_move_rule = "fifty_move_rule"
reason_str threefold_repetition = "threefold_repetition"
reason_str other_reason = "unknown"

abbrev pub is_none : GameResult → Bool
is_none result_none = true
is_none _ = false

-- the `result` of the message, with the side that is to move
abbrev pub result_str : GameResult → Bool → String
result_str result_lose white_to_move = if white_to_move then "black_wins" else "white_wins"
result_str _ white_to_move = "draw"

abbrev pub turn_str : Bool → String
turn_str true = "white"
turn_str false = "black"

-- `json.value(key, "")`
abbrev pub value : (e : Engine) → e.Json → String → Live e String
value e json key = or_raise (e.value json key) uncaught_exception

abbrev pub is_legal : (e : Engine) → e.Move → List e.Move → Bool
is_legal e move legal_moves = exists (λ m. e.same_move m move) legal_moves

module _ {e : Engine} where
  abbrev pub user_of : Option ℕ → Live e String
  user_of none = pure ""
  user_of (some id) = do d ← get_user_data id; pure d.user_id

  -- the winner's id, with the side that is to move: empty for a draw
  abbrev pub winner_of : MatchRoom e → GameResult → Bool → Live e String
  winner_of room result_lose white_to_move =
      if white_to_move then user_of room.black else user_of room.white
  winner_of room _ white_to_move = pure ""

  -- the end of a move handler: detection of the end of the game
  unfoldable pub finish_if_over : String → MatchRoom e → Live e Unit
  finish_if_over game_id room =
      let (reason, result) = e.is_game_over room.board in
      let white_to_move = e.white_to_move room.board in
      if is_none result then pure tt else do
        broadcast_to_room room (game_over (result_str result white_to_move) (reason_str reason))
        winner_id ← winner_of room result white_to_move
        enqueue_grpc_job (report_job game_id winner_id room.move_history)
        drop_room game_id

  abbrev pub after_move : MatchRoom e → e.Move → String → MatchRoom e
  after_move room move move_str = record room {
    board = e.make_move room.board move;
    move_history = add_row room.move_history move_str;
  }

  -- what follows the move on the board
  unfoldable pub announce : String → MatchRoom e → String → Live e Unit
  announce game_id room move_str = do
    modify (λ s. record s { moves_total = suc s.moves_total })
    broadcast_to_room room
        (moved move_str (e.get_fen room.board) (turn_str (e.white_to_move room.board)))
    finish_if_over game_id room

  -- apply and broadcast
  unfoldable pub play : String → MatchRoom e → e.Move → String → Live e Unit
  play game_id room move move_str = do
    update_room game_id (λ r. after_move r move move_str)
    announce game_id (after_move room move move_str) move_str

  unfoldable pub play_if_legal : ℕ → String → MatchRoom e → String → Live e Unit
  play_if_legal id game_id room move_str =
      let move = e.uci_to_move room.board move_str in
      if is_legal e move (e.legal_moves room.board)
      then play game_id room move move_str
      else reply_error id "illegal_move" "illegal move"

module _ (e : Engine) where
  unfoldable pub move_in_room : ℕ → PerSocketData → e.Json → Option (MatchRoom e) → Live e Unit
  move_in_room id d json none = pure tt
  move_in_room id d json (some room) =
      if same_bool (e.white_to_move room.board) (is_white d.color)
      then (do move_str ← value e json "move"; play_if_legal id d.game_id room move_str)
      else reply_error id "not_your_turn" "not your turn"

  unfoldable pub on_move : ℕ → PerSocketData → e.Json → Live e Unit
  on_move id d json = do room ← gets (λ s. find_room d.game_id s.rooms); move_in_room id d json room

  unfoldable pub on_join_match : ℕ → e.Json → Live e Unit
  on_join_match id json = do
    ticket ← value e json "ticket"
    color ← value e json "color"
    enqueue_grpc_job (verify_job id ticket color)

  unfoldable pub on_resume_match : ℕ → e.Json → Live e Unit
  on_resume_match id json = do
    token ← value e json "resume_token"
    enqueue_grpc_job (resume_job id token)

  unfoldable pub dispatch : ℕ → PerSocketData → Option e.Json → Live e Unit
  dispatch id d none = reply_error id "invalid_json" "invalid json"
  dispatch id d (some json) = do
    type ← value e json "type"
    if str_eq type "join_match"
        then on_join_match id json
        else if str_eq type "move"
        then on_move id d json
        else if str_eq type "resume_match"
        then on_resume_match id json
        else reply_error id "unknown_message_type" "unknown message type"

module _ {e : Engine} where
  -- `.message`
  unfoldable pub on_message : ℕ → String → ℕ → Live e Unit
  on_message id msg now_ms =
      if ltb max_message_bytes (e.size msg)
      then reply_error id "message_too_large" "message too large"
      else do
        set_user_data id (count_message now_ms)
        d ← get_user_data id
        if ltb rate_limit_max d.msg_count
            then reply_error id "rate_limit_exceeded" "rate limit exceeded"
            else dispatch e id d (e.parse msg)

  -- `.open`
  unfoldable pub on_open : Live e Unit
  on_open = modify λ s. record s {
    sockets = add_row s.sockets (record {
      socket_id = s.next_socket_id;
      user_id = "";
      game_id = "";
      color = "";
      msg_count = 0;
      window_start_ms = 0;
    });
    next_socket_id = suc s.next_socket_id;
    connected_sockets = increment s.connected_sockets;
  }

  -- the socket leaves `sockets_`
  unfoldable pub remove_socket : ℕ → Live e Unit
  remove_socket id = modify λ s. record s {
    sockets = remove_where (is_socket id) s.sockets;
    connected_sockets = decrement s.connected_sockets;
  }

  abbrev pub both_empty : MatchRoom e → Bool
  both_empty room = elim room.white [
    | some id ↦ false
    | none ↦ elim room.black [ some id ↦ false | none ↦ true ]
  ]

  unfoldable pub leave_room : PerSocketData → Option (MatchRoom e) → Live e Unit
  leave_room d none = pure tt
  leave_room d (some room) = do
    let room' = set_slot (is_white d.color) none room
    update_room d.game_id (set_slot (is_white d.color) none)
    broadcast_to_room room' opponent_disconnected
    if both_empty room' then drop_room d.game_id else pure tt

  -- `.close`, which `ws->close()` calls too
  unfoldable pub on_close : ℕ → Live e Unit
  on_close id = do
    d ← get_user_data id
    remove_socket id
    room ← gets (λ s. find_room d.game_id s.rooms)
    leave_room d room

  abbrev pub reject : ℕ → String → String → Live e Unit
  reject id reason text = do reply_error id reason text; on_close id

  -- at `join_match`: the socket gets its player, and the slot of the room its socket
  unfoldable pub take_seat : ℕ → String → String → String → Live e Unit
  take_seat id match_id user_id color = do
    set_user_data id (λ d. record d { game_id = match_id; user_id = user_id; color = color })
    update_room match_id (set_slot (is_white color) (some id))

  -- the deferred end of `join_match`, on a socket that is still open
  unfoldable pub join_open : ℕ → String → VerifyResult → String → Live e Unit
  join_open id color verified resume_token =
      if not verified.valid then reject id "invalid_ticket" "invalid ticket" else do
        make_room verified.match_id
        take_seat id verified.match_id verified.player_id color
        room ← gets (λ s. room_at verified.match_id s.rooms)
        send id (joined color (e.get_fen room.board) resume_token)

  -- the same at `resume_match`, from what the token was resolved to
  unfoldable pub retake_seat : ℕ → ResolveResult → Live e Unit
  retake_seat id resolved = do
    set_user_data id (λ d. record d {
      game_id = resolved.match_id;
      user_id = resolved.user_id;
      color = resolved.color;
    })
    update_room resolved.match_id (set_slot (is_white resolved.color) (some id))

  unfoldable pub resume_in_room : ℕ → ResolveResult → String → Option (MatchRoom e) → Live e Unit
  resume_in_room id resolved new_token none =
      reject id "game_no_longer_active" "game no longer active"
  resume_in_room id resolved new_token (some found) = do
    retake_seat id resolved
    room ← gets (λ s. room_at resolved.match_id s.rooms)
    send id (resumed resolved.color (e.get_fen room.board) room.move_history new_token)
    broadcast_to_room room opponent_reconnected

  -- the deferred end of `resume_match`, on a socket that is still open
  unfoldable pub resume_open : ℕ → ResolveResult → String → Live e Unit
  resume_open id resolved new_token =
      if not resolved.valid then reject id "invalid_resume_token" "invalid resume token" else do
        found ← gets (λ s. find_room resolved.match_id s.rooms)
        resume_in_room id resolved new_token found

  abbrev pub if_open : ℕ → Live e Unit → Live e Unit
  if_open id m = do found ← gets (λ s. is_open id s.sockets); if found then m else pure tt

  unfoldable pub run_deferred : Deferred → Live e Unit
  run_deferred (join_verified id color verified token) =
      if_open id (join_open id color verified token)
  run_deferred (resume_resolved id resolved token) = if_open id (resume_open id resolved token)
