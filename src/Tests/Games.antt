-- ===== src/Tests/Games.antt =====
-- The theorems on the game server, on the sample opening.
use secure_chess.Prelude.{
  ◌≡◌, refl, ◌⊎◌, String, true, false, some, none, [], ◌∷◌, add_row, update_where, remove_where,
  find_first, exists, arith,
}
use secure_chess.Exec.{ok, err, uncaught_exception}
use secure_chess.Platform.Tables.{Game}
use secure_chess.Sql.{complete_match, insert_game, select_match}
use secure_chess.Servicer.{ResumeTokenRequest}
use secure_chess.Servicer.GameEnd.{game_of}
use secure_chess.GameServer.{
  Server, MatchRoom, report_job, PerSocketData, VerifyResult, join_verified, joined, resume_job,
  resume_resolved, resumed, opponent_reconnected, opponent_disconnected, is_open, is_socket,
  find_room, set_user_data, get_user_data,
}
use secure_chess.GameServer.Handlers.{
  on_open, on_message, on_close, on_move, is_legal, run_deferred, dispatch, move_in_room,
  remove_socket, leave_room,
}
use secure_chess.GameServer.GrpcClient.{delivered, client_create, run_job}
use secure_chess.GameServer.Moves.{Refused, Played, on_move_lem}
use secure_chess.GameServer.Messages.{IsMoveOf, on_message-IsMovedBy}
use secure_chess.GameServer.Mate.{report_of, on_move-recorded}
use secure_chess.GameServer.Quota.{DispatchesAtMost, dispatch-AtMost}
use secure_chess.GameServer.Resumption.{resolve_result, resume_match_lem}
use secure_chess.GameServer.Closing.{on_close_lem}
use secure_chess.GameServer.Joining.{HasJoined, join_verified_lem, resume_open-join_open}
use secure_chess.GameServer.System.{stop, more, opened, received, closed, fresh_server}
use secure_chess.GameServer.Runs.{IsSound, steps-IsSound}
use secure_chess.Sample.Values.{sample, start, marks_in, marks}
use secure_chess.Sample.Texts.{text_laws}
use secure_chess.Sample.Chess.{opening}
use secure_chess.Tests.Accounts.{no_rows-IsWellFormed}
use secure_chess.Tests.Board.{ann_socket, bob_socket, room, game, control, paused}

on_message-IsMovedBy_example :
    let t = (on_message 2 "d8h4" 5000 game).1 in
    (find_room "" t.rooms ≡ find_room "" game.rooms) ⊎ IsMoveOf (some "d8h4") bob_socket "" game t
unfolding find_first
on_message-IsMovedBy_example = on_message-IsMovedBy 2 "d8h4" 5000 bob_socket "" game refl

on_move_lem_example :
    let (r, t) = on_move opening 2 bob_socket "d8h4" game in
    ((true ≡ false) × Refused 2 "not your turn" game r t)
    ⊎ ((true ≡ true)
        × (opening.value "d8h4" "move" ≡ none)
        × (r ≡ err uncaught_exception)
        × (t ≡ game))
    ⊎ ((true ≡ true)
        × (move_str : String) × (opening.value "d8h4" "move" ≡ some move_str)
        × (((is_legal opening move_str ("d8h4" ∷ []) ≡ false) × Refused 2 "illegal move" game r t)
            ⊎ Played "" room move_str game r t))
unfolding find_first exists
on_move_lem_example = on_move_lem 2 bob_socket "d8h4" room game refl refl refl refl

abbrev mate_row : Game
mate_row =
    game_of {p = sample} (report_of bob_socket room "d8h4")
      (record {
        match_id = 0;
        white_user_id = 1;
        black_user_id = 2;
        time_control = "blitz";
        increment = 2;
        status = "pending";
        created_at = 0;
      })
      control

on_move-recorded_example :
    let (r, t) = on_move opening 2 bob_socket "d8h4" game in
    let job = report_job "" "uu" (add_row room.move_history "d8h4") in
    let (q, v) = run_job delivered delivered job control in
    (r ≡ ok tt)
    × (t.jobs ≡ add_row game.jobs job)
    × (q ≡ ok none)
    × (v.db.games ≡ add_row control.db.games mate_row)
    × (mate_row.result ≡ "black_win")
    × (v.db.matches ≡ (complete_match 0 control.db).matches)
unfolding find_first exists select_match insert_game marks_in marks secure_chess.Servicer.result_of
    add_row
on_move-recorded_example =
    on_move-recorded 2 bob_socket "d8h4" room game "d8h4" control 0 _
      (record control.db { games = mate_row ∷ [] }) refl refl refl refl refl refl refl refl refl
      refl refl refl refl refl refl refl refl

dispatch-AtMost_example :
    DispatchesAtMost {e = opening} 20 1 ((5000, "d8h4") ∷ (5400, "huge") ∷ (6000, "e2e4") ∷ []) game
unfolding find_first
dispatch-AtMost_example =
    dispatch-AtMost {e = opening} 1 5000 _ ann_socket game refl
      ((omega arith, omega arith), ((omega arith, omega arith), ((omega arith, omega arith), tt)))

abbrev bobs_seat : ResumeTokenRequest
bobs_seat = record { match_id = ""; user_id = "uu"; color = "black" }

abbrev paused_room : MatchRoom opening
paused_room = record room { black = none }

resume_match_lem_example :
    let (token, v) = client_create {p = sample} delivered "" "uu" "black" start in
    let resume = resume_resolved 3 (resolve_result bobs_seat) "u" in
    let (result, t) = run_deferred resume paused in
    (token ≡ ok "")
    × ((run_job delivered delivered (resume_job 3 "") v).0 ≡ ok (some resume))
    × (result ≡ ok tt)
    × (find_first (is_socket 3) t.sockets
        ≡ some (record ann_socket { socket_id = 3; user_id = "uu"; color = "black" }))
    × (find_room "" t.rooms ≡ some (record room { black = some 3 }))
    × (t.sent
        ≡ (3, resumed "black" "b" room.move_history "u")
          ∷ (1, opponent_reconnected)
          ∷ (3, opponent_reconnected)
          ∷ [])
unfolding find_first exists text_laws marks add_row
resume_match_lem_example =
    resume_match_lem {p = sample} text_laws 3 bobs_seat start paused_room _ paused refl refl
      (refl, refl, refl) refl refl refl refl

-- Cid joins a match that has no room yet.
abbrev cid : VerifyResult
cid = record { valid = true; match_id = "uuu"; player_id = "uuuu" }

abbrev cid_socket : PerSocketData
cid_socket = record ann_socket { socket_id = 3; user_id = ""; game_id = "none"; color = "" }

join_verified_lem_example :
    HasJoined 3 "white" cid "token" cid_socket paused
      (run_deferred (join_verified 3 "white" cid "token") paused)
unfolding find_first
join_verified_lem_example = join_verified_lem 3 "white" cid "token" cid_socket paused refl refl

-- Bob comes back with a ticket, or with a resume token.
abbrev bob : VerifyResult
bob = record { valid = true; match_id = ""; player_id = "uu" }

resume_open-join_open_example :
    let (q, t) = run_deferred (join_verified 3 "black" bob "a") paused in
    let (r, u) = run_deferred (resume_resolved 3 (resolve_result bobs_seat) "b") paused in
    (q ≡ ok tt)
    × (r ≡ ok tt)
    × (find_first (is_socket 3) t.sockets
        ≡ some (record ann_socket { socket_id = 3; user_id = "uu"; color = "black" }))
    × (find_room "" t.rooms ≡ some (record room { black = some 3 }))
    × (record u { sent = t.sent } ≡ t)
    × (t.sent ≡ (3, joined "black" "b" "a") ∷ [])
    × (u.sent
        ≡ (3, resumed "black" "b" room.move_history "b")
          ∷ (1, opponent_reconnected)
          ∷ (3, opponent_reconnected)
          ∷ [])
unfolding find_first exists add_row
resume_open-join_open_example =
    resume_open-join_open 3 "black" bob "a" "b" cid_socket paused_room paused refl refl refl refl
      refl

-- Bob's new connection has taken over his seat before the old one is closed.
abbrev taken_over : Server opening
taken_over = record game {
  rooms = record room { black = some 3 } ∷ [];
  sockets = ann_socket ∷ bob_socket ∷ record bob_socket { socket_id = 3 } ∷ [];
}

on_close_lem_example :
    let (r, t) = on_close 2 taken_over in
    let room' = record room { black = none } in
    (r ≡ ok tt)
    × (is_open 2 t.sockets ≡ false)
    × (((false ≡ false)
          × (find_room "" t.rooms ≡ some room')
          × (t.sent ≡ (1, opponent_disconnected) ∷ []))
        ⊎ ((false ≡ true) × (find_room "" t.rooms ≡ none) × (t.sent ≡ [])))
unfolding find_first exists remove_where add_row
on_close_lem_example =
    on_close_lem 2 bob_socket (record room { black = some 3 }) taken_over refl refl refl tt

-- a client connects, sends a move without a game, and leaves
abbrev one_open : Server opening
one_open = (on_open fresh_server).1

abbrev one_sent : Server opening
one_sent = (on_message 1 "f2f3" 5000 one_open).1

abbrev one_left : Server opening
one_left = (on_close 1 one_sent).1

steps-IsSound_example : IsSound {p = sample} (record { control = start; game = one_left })
unfolding on_open on_message on_close set_user_data get_user_data update_where remove_where add_row
    find_first exists dispatch on_move move_in_room remove_socket leave_room
steps-IsSound_example =
    steps-IsSound start start one_left
      (more (opened {g = fresh_server} {h = one_open} refl) (
        more (received {g = one_open} {h = one_sent} 1 "f2f3" 5000 refl refl)
          (more (closed {g = one_sent} {h = one_left} 1 refl refl) stop)))
      no_rows-IsWellFormed
