-- ===== src/GameServer/Moves.antt =====
-- A `move` message on services/gameserver/src/server.cpp: what comes of it.
use secure_chess.Prelude.{
  ℕ, suc, String, ◌≡◌, refl, true, false, none, some, add_row, find_first-update_where,
  find_first-remove_where, Bool-cases, Option-cases, inl, inr, ◌⊎◌, arith,
}
use secure_chess.Exec.{Result, ok, err, uncaught_exception}
use secure_chess.GameServer.{
  Engine, Server, PerSocketData, moved, game_over, error_message, MatchRoom, report_job, is_room,
  is_open, find_room, reply_error,
}
use secure_chess.GameServer.Handlers.{
  is_white, same_bool, is_none, result_str, reason_str, turn_str, is_legal, after_move, play,
  play_if_legal, move_in_room, on_move,
}
use secure_chess.GameServer.Sends.{tell_room, IsOpenSlot, reply_error-open}
use secure_chess.GameServer.Plays.{
  winner_at, made, play-made, finish_if_over-over, finish_if_over-goes_on,
}

module _ {e : Engine} where
  -- an error reply to the socket, and nothing else
  abbrev pub Refused : ℕ → String → Server e → Result {0} Unit → Server e → Type 0
  Refused ws text s r t =
      (r ≡ ok tt)
      × (t.rooms ≡ s.rooms)
      × (t.jobs ≡ s.jobs)
      × (t.sent ≡ add_row s.sent (ws, error_message text))

  -- The move is made, both players are told, and either the game goes on in its room, or the room
  -- is closed, both players get the result, and a report waits for a worker.
  abbrev pub Played : String → MatchRoom e → String → Server e → Result {0} Unit → Server e → Type 0
  Played game_id room move_str s r t =
      let move = e.uci_to_move room.board move_str in
      let after = after_move room move move_str in
      let white = e.white_to_move after.board in
      let (reason, result) = e.is_game_over after.board in
      let told = tell_room after (moved move_str (e.get_fen after.board) (turn_str white)) s.sent in
      (is_legal e move (e.legal_moves room.board) ≡ true)
      × (r ≡ ok tt)
      × (t.moves_total ≡ suc s.moves_total)
      × (((is_none result ≡ true)
            × (find_room game_id t.rooms ≡ some after)
            × (t.jobs ≡ s.jobs)
            × (t.sent ≡ told))
          ⊎ ((is_none result ≡ false)
              × (find_room game_id t.rooms ≡ none)
              × (t.jobs
                  ≡ add_row s.jobs (
                      report_job game_id (winner_at s.sockets after result white)
                        after.move_history))
              × (t.sent
                  ≡ tell_room after (game_over (result_str result white) (reason_str reason))
                      told)))

  pub play-Played :
      (game_id move_str : String) (room : MatchRoom e) (s : Server e)
      → find_room game_id s.rooms ≡ some room
      → IsOpenSlot s.sockets room.white
      → IsOpenSlot s.sockets room.black
      → is_legal e (e.uci_to_move room.board move_str) (e.legal_moves room.board) ≡ true
      → let (r, t) = play game_id room (e.uci_to_move room.board move_str) move_str s in
        Played game_id room move_str s r t
  play-Played game_id move_str room s found h k legal =
      let move = e.uci_to_move room.board move_str in
      let after = after_move room move move_str in
      let t = made game_id room move move_str s in
      let a = play-made game_id move_str move room s h k in
      elim (Bool-cases (is_none (e.is_game_over after.board).1)) [
        | inl on ↦
            let b = finish_if_over-goes_on game_id after t on in
            let stays =
              find_first-update_where (is_room game_id) (λ r. after_move r move move_str)
                (λ r. refl) s.rooms room found in
            rw (a, b) (legal, refl, refl, inl (on, stays, refl, refl))
        | inr over ↦
            let b = finish_if_over-over game_id after t over h k in
            rw (a, b)
              (
                legal,
                refl,
                refl,
                inr (over, find_first-remove_where (is_room game_id) t.rooms, refl, refl),
              )
      ]

  module _ (ws : ℕ) (d : PerSocketData) (json : e.Json) (room : MatchRoom e) (s : Server e)
      (found : find_room d.game_id s.rooms ≡ some room) where
    pub on_move-other :
        same_bool (e.white_to_move room.board) (is_white d.color) ≡ false
        → on_move e ws d json s ≡ reply_error ws "not_your_turn" "not your turn" s
    unfolding on_move move_in_room
    on_move-other other = ground arith

    pub on_move-bad :
        same_bool (e.white_to_move room.board) (is_white d.color) ≡ true
        → e.value json "move" ≡ none
        → on_move e ws d json s ≡ (err uncaught_exception, s)
    unfolding on_move move_in_room
    on_move-bad mine bad = ground arith

    module _ (mine : same_bool (e.white_to_move room.board) (is_white d.color) ≡ true) (m : String)
        (given : e.value json "move" ≡ some m) where
      pub on_move-illegal :
          is_legal e (e.uci_to_move room.board m) (e.legal_moves room.board) ≡ false
          → on_move e ws d json s ≡ reply_error ws "illegal_move" "illegal move" s
      unfolding on_move move_in_room play_if_legal
      on_move-illegal illegal = ground arith

      pub on_move-legal :
          is_legal e (e.uci_to_move room.board m) (e.legal_moves room.board) ≡ true
          → on_move e ws d json s ≡ play d.game_id room (e.uci_to_move room.board m) m s
      unfolding on_move move_in_room play_if_legal
      on_move-legal legal = ground arith

  refused :
      (ws : ℕ) (reason text : String) (s : Server e)
      → is_open ws s.sockets ≡ true
      → let (r, t) = reply_error ws reason text s in Refused ws text s r t
  refused ws reason text s there =
      rw (reply_error-open ws reason text s there) (refl, refl, refl, refl)

  -- A `move` of an open socket whose room is there and whose room's sockets are open has one of
  -- four outcomes: if it is not the turn of the socket's colour, or the move is not legal on the
  -- board of the room, the sender gets the error, and no room and no job is touched; if the message
  -- has no text for the move, the handler raises and has changed nothing; else the move is made.
  pub on_move_lem :
      (ws : ℕ) (d : PerSocketData) (json : e.Json) (room : MatchRoom e) (s : Server e)
      → is_open ws s.sockets ≡ true
      → find_room d.game_id s.rooms ≡ some room
      → IsOpenSlot s.sockets room.white
      → IsOpenSlot s.sockets room.black
      → let (r, t) = on_move e ws d json s in
        let mine = same_bool (e.white_to_move room.board) (is_white d.color) in
        ((mine ≡ false) × Refused ws "not your turn" s r t)
        ⊎ ((mine ≡ true) × (e.value json "move" ≡ none) × (r ≡ err uncaught_exception) × (t ≡ s))
        ⊎ ((mine ≡ true)
            × (move_str : String) × (e.value json "move" ≡ some move_str)
            × (((is_legal e (e.uci_to_move room.board move_str) (e.legal_moves room.board) ≡ false)
                  × Refused ws "illegal move" s r t)
                ⊎ Played d.game_id room move_str s r t))
  on_move_lem ws d json room s there found h k =
      elim (Bool-cases (same_bool (e.white_to_move room.board) (is_white d.color))) [
        | inr other ↦
            rw (on_move-other ws d json room s found other)
              (inl (other, refused ws "not_your_turn" "not your turn" s there))
        | inl mine ↦ elim (Option-cases (e.value json "move")) [
          | inl bad ↦
              rw (on_move-bad ws d json room s found mine bad) (inr (inl (mine, bad, refl, refl)))
          | inr (m, given) ↦
              elim (Bool-cases
                (is_legal e (e.uci_to_move room.board m) (e.legal_moves room.board))) [
                  | inr illegal ↦ rw (on_move-illegal ws d json room s found mine m given illegal) (
                      inr (
                        inr (
                          mine,
                          m,
                          given,
                          inl (illegal, refused ws "illegal_move" "illegal move" s there),
                        )))
                  | inl legal ↦ rw (on_move-legal ws d json room s found mine m given legal) (
                      inr (
                        inr (mine, m, given, inr (play-Played d.game_id m room s found h k legal))))
                ]
        ]
      ]
