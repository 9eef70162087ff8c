-- ===== src/GameServer/Plays.antt =====
-- A legal move on services/gameserver/src/server.cpp in a room whose sockets are open.
use secure_chess.Prelude.{
  ℕ, suc, String, ◌≡◌, refl, ◌∙◌, Bool, true, false, Option, none, some, List, add_row, find_first,
  update_where, remove_where, arith, if◌then◌else◌,
}
use secure_chess.Exec.{ok}
use secure_chess.GameServer.{
  Engine, Server, PerSocketData, moved, game_over, MatchRoom, GameResult, result_none, result_win,
  result_lose, result_draw, report_job, is_room, is_socket, update_room, drop_room,
  enqueue_grpc_job, decrement,
}
use secure_chess.GameServer.Handlers.{
  is_none, result_str, reason_str, turn_str, user_of, winner_of, finish_if_over, after_move,
  announce, play,
}
use secure_chess.GameServer.Sends.{
  tell_room, IsOpenSlot, get_user_data-open, open-found, broadcast_to_room-open,
}

abbrev pub user_at : List PerSocketData → Option ℕ → String
user_at sockets none = ""
user_at sockets (some id) = elim (find_first (is_socket id) sockets) [
  | none ↦ ""
  | some d ↦ d.user_id
]

module _ {e : Engine} where
  -- the player that `winner_of` names
  abbrev pub winner_at : List PerSocketData → MatchRoom e → GameResult → Bool → String
  winner_at sockets room result_lose white_to_move =
      user_at sockets (if white_to_move then room.black else room.white)
  winner_at sockets room _ white_to_move = ""

  user_of-open :
      (slot : Option ℕ) (s : Server e)
      → IsOpenSlot s.sockets slot
      → user_of slot s ≡ (ok (user_at s.sockets slot), s)
  user_of-open none s h = refl
  user_of-open (some id) s h =
      let (d, k) = open-found id s.sockets h in let a = get_user_data-open id s d k in ground arith

  winner_of-open :
      (room : MatchRoom e) (result : GameResult) (white : Bool) (s : Server e)
      → IsOpenSlot s.sockets room.white
      → IsOpenSlot s.sockets room.black
      → winner_of room result white s ≡ (ok (winner_at s.sockets room result white), s)
  winner_of-open room result_lose true s h k = user_of-open room.black s k
  winner_of-open room result_lose false s h k = user_of-open room.white s h
  winner_of-open room result_none white s h k = refl
  winner_of-open room result_win white s h k = refl
  winner_of-open room result_draw white s h k = refl

  -- the end of the game of the room
  abbrev pub ended : String → MatchRoom e → Server e → Server e
  ended game_id room s =
      let (reason, result) = e.is_game_over room.board in
      let white = e.white_to_move room.board in
      record s {
        sent = tell_room room (game_over (result_str result white) (reason_str reason)) s.sent;
        jobs =
            add_row s.jobs
              (report_job game_id (winner_at s.sockets room result white) room.move_history);
        rooms = remove_where (is_room game_id) s.rooms;
        active_games = decrement s.active_games;
      }

  pub finish_if_over-over :
      (game_id : String) (room : MatchRoom e) (s : Server e)
      → is_none (e.is_game_over room.board).1 ≡ false
      → IsOpenSlot s.sockets room.white
      → IsOpenSlot s.sockets room.black
      → finish_if_over game_id room s ≡ (ok tt, ended game_id room s)
  unfolding finish_if_over enqueue_grpc_job drop_room
  finish_if_over-over game_id room s over h k =
      let (reason, result) = e.is_game_over room.board in
      let white = e.white_to_move room.board in
      let m = game_over (result_str result white) (reason_str reason) in
      let a = broadcast_to_room-open room m s h k in
      let b = winner_of-open room result white (record s { sent = tell_room room m s.sent }) h k in
      ground arith

  pub finish_if_over-goes_on :
      (game_id : String) (room : MatchRoom e) (s : Server e)
      → is_none (e.is_game_over room.board).1 ≡ true
      → finish_if_over game_id room s ≡ (ok tt, s)
  unfolding finish_if_over
  finish_if_over-goes_on game_id room s on = ground arith

  -- the move on the board, and its announcement to the players
  abbrev pub made : String → MatchRoom e → e.Move → String → Server e → Server e
  made game_id room move move_str s =
      let after = after_move room move move_str in
      record s {
        rooms = update_where (is_room game_id) (λ r. after_move r move move_str) s.rooms;
        moves_total = suc s.moves_total;
        sent =
            tell_room after
              (moved move_str (e.get_fen after.board) (turn_str (e.white_to_move after.board)))
              s.sent;
      }

  pub play-made :
      (game_id move_str : String) (move : e.Move) (room : MatchRoom e) (s : Server e)
      → IsOpenSlot s.sockets room.white
      → IsOpenSlot s.sockets room.black
      → play game_id room move move_str s
        ≡ finish_if_over game_id (after_move room move move_str) (made game_id room move move_str s)
  unfolding play announce update_room
  play-made game_id move_str move room s h k =
      let after = after_move room move move_str in
      let t : Server e = record s {
        rooms = update_where (is_room game_id) (λ r. after_move r move move_str) s.rooms;
        moves_total = suc s.moves_total;
      } in
      let a =
        broadcast_to_room-open after
          (moved move_str (e.get_fen after.board) (turn_str (e.white_to_move after.board))) t h k in
      ground arith

  -- a legal move that ends the game
  pub play-ended :
      (game_id move_str : String) (move : e.Move) (room : MatchRoom e) (s : Server e)
      → IsOpenSlot s.sockets room.white
      → IsOpenSlot s.sockets room.black
      → is_none (e.is_game_over (after_move room move move_str).board).1 ≡ false
      → play game_id room move move_str s
        ≡ (ok tt, ended game_id (after_move room move move_str) (made game_id room move move_str s))
  play-ended game_id move_str move room s h k over =
      play-made game_id move_str move room s h k
      ∙ finish_if_over-over game_id (after_move room move move_str)
          (made game_id room move move_str s) over h k
