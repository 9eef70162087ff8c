-- ===== src/GameServer/Mate.antt =====
-- From the mating move on services/gameserver/src/server.cpp to the row of
-- services/api/rpc/servicer.py.
use secure_chess.Prelude.{
  ℕ, String, ◌≡◌, refl, ◌∙◌, Bool, true, false, Option, some, none, List, add_row, find_first, not,
  str_eq, is_empty, eq_iff, if◌then◌else◌, arith,
}
use secure_chess.Exec.{ok}
use secure_chess.Platform.{Platform, World}
use secure_chess.Platform.Tables.{Match, Database}
use secure_chess.Sql.{insert_game, select_match, complete_match}
use secure_chess.Servicer.{GameEndRequest, result_of}
use secure_chess.Servicer.GameEnd.{game_of, report_game_end-recorded}
use secure_chess.GameServer.{
  Engine, Server, PerSocketData, MatchRoom, result_lose, report_job, is_socket, find_room,
}
use secure_chess.GameServer.Handlers.{is_white, same_bool, is_none, is_legal, after_move, on_move}
use secure_chess.GameServer.Sends.{IsOpenSlot}
use secure_chess.GameServer.Plays.{play-ended, winner_at}
use secure_chess.GameServer.Moves.{on_move-legal}
use secure_chess.GameServer.GrpcClient.{delivered, run_job, client_report, remote}

abbrev slot : {e : Engine} → Bool → MatchRoom e → Option ℕ
slot true room = room.white
slot false room = room.black

abbrev pub win_of : Bool → String
win_of white = if white then "white_win" else "black_win"

abbrev pub player : Bool → Match → ℕ
player white m = if white then m.white_user_id else m.black_user_id

-- the players of a match have distinct ids as texts, and a winner's id is that of one of them
result_of-player :
    (white : Bool) (id white_id black_id : String)
    → is_empty id ≡ false
    → id ≡ (if white then white_id else black_id)
    → str_eq black_id white_id ≡ false
    → result_of id white_id black_id ≡ win_of white
unfolding result_of
result_of-player true id white_id black_id given own differ =
    ground (arith, (eq_iff id white_id).1 own)
result_of-player false id white_id black_id given own differ =
    ground (arith, (eq_iff id black_id).1 own, own)

module _ {e : Engine} where
  -- the report that follows a mating move
  abbrev pub report_of : PerSocketData → MatchRoom e → String → GameEndRequest
  report_of d room move_str = record {
    match_id = d.game_id;
    winner_id = d.user_id;
    moves = add_row room.move_history move_str;
  }

  slot-after_move :
      (white : Bool) (room : MatchRoom e) (move : e.Move) (m : String)
      → slot white (after_move room move m) ≡ slot white room
  slot-after_move true room move m = refl
  slot-after_move false room move m = refl

  winner-mover :
      (ws : ℕ) (d : PerSocketData) (room : MatchRoom e) (white before : Bool)
      (sockets : List PerSocketData)
      → find_first (is_socket ws) sockets ≡ some d
      → slot (is_white d.color) room ≡ some ws
      → same_bool before (is_white d.color) ≡ true
      → white ≡ not before
      → winner_at sockets room result_lose white ≡ d.user_id
  winner-mover ws d room white true sockets found seated mine flip = ground arith
  winner-mover ws d room white false sockets found seated mine flip = ground arith

player-text :
    (p : Platform) (white : Bool) (m : Match)
    → p.str_uuid (player white m)
      ≡ (if white then p.str_uuid m.white_user_id else p.str_uuid m.black_user_id)
player-text p true m = refl
player-text p false m = refl

module _ {p : Platform} where
  run_report :
      (request : GameEndRequest) (w : World p) (id : ℕ) (m : Match) (db : Database)
      → p.db_fault w.connections ≡ false
      → p.uuid_of request.match_id ≡ some id
      → select_match id w.db ≡ some m
      → insert_game (game_of request m w) w.db ≡ ok db
      → let (r, v) =
          run_job delivered delivered
            (report_job request.match_id request.winner_id request.moves)
            w in
        (r ≡ ok none)
        × (v.db.games ≡ add_row w.db.games (game_of request m w))
        × (v.db.matches ≡ (complete_match m.match_id w.db).matches)
  unfolding run_job client_report remote
  run_report request w id m db up a b c =
      let t = report_game_end-recorded request w id m db up a b c in
      (ground arith, ground arith, ground arith)

-- A checkmate ends up in the database. The move of an open socket, at its turn, in its own slot of
-- a room whose sockets are open, is legal and ends the game with the side to move having lost:
-- then the handler returns and leaves one more job, a report with the mover as the winner. A worker
-- that runs this job, with the network and the database up, for a match that is there and whose
-- players are the seated ones, and a row that the table takes, has added the match's game, won by
-- the mover's colour, with all the moves, and completed the match.
pub on_move-recorded :
    {e : Engine} {p : Platform} (ws : ℕ) (d : PerSocketData) (json : e.Json) (room : MatchRoom e)
    (s : Server e) (move_str : String) (w : World p) (id : ℕ) (m : Match) (db : Database)
    → find_first (is_socket ws) s.sockets ≡ some d
    → find_room d.game_id s.rooms ≡ some room
    → IsOpenSlot s.sockets room.white
    → IsOpenSlot s.sockets room.black
    → slot (is_white d.color) room ≡ some ws
    → same_bool (e.white_to_move room.board) (is_white d.color) ≡ true
    → e.value json "move" ≡ some move_str
    → let move = e.uci_to_move room.board move_str in
      let after = e.make_move room.board move in
      is_legal e move (e.legal_moves room.board) ≡ true
      → (e.is_game_over after).1 ≡ result_lose
      → e.white_to_move after ≡ not (e.white_to_move room.board)
      → p.db_fault w.connections ≡ false
      → p.uuid_of d.game_id ≡ some id
      → select_match id w.db ≡ some m
      → is_empty d.user_id ≡ false
      → d.user_id ≡ p.str_uuid (player (is_white d.color) m)
      → str_eq (p.str_uuid m.black_user_id) (p.str_uuid m.white_user_id) ≡ false
      → insert_game (game_of (report_of d room move_str) m w) w.db ≡ ok db
      → let (r, t) = on_move e ws d json s in
        let job = report_job d.game_id d.user_id (add_row room.move_history move_str) in
        let (q, v) = run_job delivered delivered job w in
        let game = game_of (report_of d room move_str) m w in
        (r ≡ ok tt)
        × (t.jobs ≡ add_row s.jobs job)
        × (q ≡ ok none)
        × (v.db.games ≡ add_row w.db.games game)
        × (game.result ≡ win_of (is_white d.color))
        × (v.db.matches ≡ (complete_match m.match_id w.db).matches)
on_move-recorded {e} {p} ws d json room s move_str w id m db found there h k seated mine given legal
      lost flip up known row named own differ fits =
    let move = e.uci_to_move room.board move_str in
    let after = after_move room move move_str in
    let over : is_none (e.is_game_over after.board).1 ≡ false = rw lost refl in
    let a = on_move-legal ws d json room s there mine move_str given legal in
    let b = play-ended d.game_id move_str move room s h k over in
    let winner =
      winner-mover ws d after (e.white_to_move after.board) (e.white_to_move room.board) s.sockets
        found (slot-after_move (is_white d.color) room move move_str ∙ seated) mine flip in
    let (q, games, matches) = run_report (report_of d room move_str) w id m db up known row fits in
    (
      rw (a, b) refl,
      rw (a, b, lost, winner) refl,
      q,
      games,
      result_of-player (is_white d.color) d.user_id _ _ named
          (own ∙ player-text p (is_white d.color) m) differ,
      matches,
    )
