-- ===== src/GameServer/Messages.antt =====
-- What an open socket can do to the boards of services/gameserver/src/server.cpp.
use secure_chess.Prelude.{
  ℕ, String, ◌≡◌, refl, sym, ap, ◌∙◌, eq_iff, true, false, Option, none, some, find_first,
  update_where, str_eq, find_first-update_where, Bool-cases, Option-cases, inl, inr, ◌⊎◌, arith,
  if◌then◌else◌, ltb,
}
use secure_chess.GameServer.{
  Engine, Server, PerSocketData, Live, is_socket, find_room, set_user_data, reply_error,
}
use secure_chess.GameServer.Handlers.{
  count_message, max_message_bytes, rate_limit_max, on_move, on_join_match, on_resume_match,
  dispatch, on_message,
}
use secure_chess.GameServer.Quiet.{Quiet, quiet_rules}
use secure_chess.GameServer.Sends.{get_user_data-open}
use secure_chess.GameServer.Boards.{IsMovedBy, on_move-boards, reply-rooms}

count_message-keeps :
    (now : ℕ) (d : PerSocketData)
    → let d' = count_message now d in
      (d'.socket_id ≡ d.socket_id) × (d'.game_id ≡ d.game_id) × (d'.color ≡ d.color)
count_message-keeps now d = (ground arith, ground arith, ground arith)

module _ {e : Engine} where
  pub on_join_match-Quiet : (ws : ℕ) (json : e.Json) → Quiet (on_join_match e ws json)
  unfolding on_join_match
  on_join_match-Quiet ws json = search quiet_rules

  pub on_resume_match-Quiet : (ws : ℕ) (json : e.Json) → Quiet (on_resume_match e ws json)
  unfolding on_resume_match
  on_resume_match-Quiet ws json = search quiet_rules

  -- what the text of the message gave is a move of the player
  abbrev pub IsMoveOf : Option e.Json → PerSocketData → String → Server e → Server e → Type 0
  IsMoveOf o d id s t =
      (json : e.Json) × (o ≡ some json)
      × (e.value json "type" ≡ some "move")
      × IsMovedBy json d id s t

  -- a message of the kind of a text
  abbrev handle : ℕ → PerSocketData → e.Json → String → Live e Unit
  handle ws d json type =
      if str_eq type "join_match"
      then on_join_match e ws json
      else if str_eq type "move"
      then on_move e ws d json
      else if str_eq type "resume_match"
      then on_resume_match e ws json
      else reply_error ws "unknown_message_type" "unknown message type"

  handle-boards :
      (ws : ℕ) (d : PerSocketData) (json : e.Json) (type : String) (s : Server e) (id : String)
      → let t = (handle ws d json type s).1 in
        (find_room id t.rooms ≡ find_room id s.rooms) ⊎ ((type ≡ "move") × IsMovedBy json d id s t)
  handle-boards ws d json type s id = elim (Bool-cases (str_eq type "join_match")) [
    | inl join ↦ rw join (inl (ap (find_room id) ((on_join_match-Quiet ws json).at s).0))
    | inr a ↦ elim (Bool-cases (str_eq type "move")) [
      | inl move ↦
          rw (a, move)
            (elim (on_move-boards ws d json s id) [
              | inl same ↦ inl same
              | inr m ↦ inr ((eq_iff type "move").0 move, m)
            ])
      | inr b ↦ elim (Bool-cases (str_eq type "resume_match")) [
        | inl resume ↦
            rw (a, b, resume) (inl (ap (find_room id) ((on_resume_match-Quiet ws json).at s).0))
        | inr c ↦
            rw (a, b, c)
              (inl (
                ap (find_room id) (reply-rooms ws "unknown_message_type" "unknown message type" s)))
      ]
    ]
  ]

  dispatch-boards :
      (ws : ℕ) (d : PerSocketData) (o : Option e.Json) (s : Server e) (id : String)
      → let t = (dispatch e ws d o s).1 in
        (find_room id t.rooms ≡ find_room id s.rooms) ⊎ IsMoveOf o d id s t
  unfolding dispatch
  dispatch-boards ws d none s id =
      inl (ap (find_room id) (reply-rooms ws "invalid_json" "invalid json" s))
  dispatch-boards ws d (some json) s id = elim (Option-cases (e.value json "type")) [
    | inl bad ↦ rw bad (inl refl)
    | inr (type, given) ↦ rw given (elim (handle-boards ws d json type s id) [
      | inl same ↦ inl same
      | inr (is_move, m) ↦ inr (json, refl, given ∙ ap some is_move, m)
    ])
  ]

  -- the server once the message is counted
  abbrev pub counted : ℕ → ℕ → Server e → Server e
  counted ws now s = record s {
    sockets = update_where (is_socket ws) (count_message now) s.sockets;
  }

  module _ (ws : ℕ) (msg : String) (now : ℕ) (d : PerSocketData) (s : Server e)
      (found : find_first (is_socket ws) s.sockets ≡ some d) where
    pub counted-found :
        find_first (is_socket ws) (counted ws now s).sockets ≡ some (count_message now d)
    counted-found =
        find_first-update_where (is_socket ws) (count_message now)
          (λ x. rw (count_message-keeps now x).0 refl) s.sockets d found

    pub on_message-large :
        ltb max_message_bytes (e.size msg) ≡ true
        → on_message ws msg now s ≡ reply_error ws "message_too_large" "message too large" s
    unfolding on_message
    on_message-large large = ground arith

    pub on_message-limited :
        ltb max_message_bytes (e.size msg) ≡ false
        → ltb rate_limit_max (count_message now d).msg_count ≡ true
        → on_message ws msg now s
          ≡ reply_error ws "rate_limit_exceeded" "rate limit exceeded" (counted ws now s)
    unfolding on_message set_user_data
    on_message-limited small over =
        let a = get_user_data-open ws (counted ws now s) (count_message now d) counted-found in
        ground arith

    pub on_message-dispatched :
        ltb max_message_bytes (e.size msg) ≡ false
        → ltb rate_limit_max (count_message now d).msg_count ≡ false
        → on_message ws msg now s
          ≡ dispatch e ws (count_message now d) (e.parse msg) (counted ws now s)
    unfolding on_message set_user_data
    on_message-dispatched small under =
        let a = get_user_data-open ws (counted ws now s) (count_message now d) counted-found in
        ground arith

  counted_moved :
      (o : Option e.Json) (now : ℕ) (d : PerSocketData) (id : String) (s t : Server e)
      → IsMoveOf o (count_message now d) id s t
      → IsMoveOf o d id s t
  counted_moved o now d id s t
        (json, parsed, kind, (own, room, found, mine, m, given, legal, moved)) =
      let keeps = count_message-keeps now d in
      (
        json,
        parsed,
        kind,
        (rw (sym keeps.1) own, room, found, rw (sym keeps.2) mine, m, given, legal, moved),
      )

  -- The server is authoritative: whatever an open socket sends, and whether the handler returns or
  -- raises, every room stays as it is, but for the room of the socket's own game, if it was the
  -- turn of the socket's colour, the message is JSON of the type `move`, and the text under its key
  -- `move` is a legal move on the board of the room; then the room has this move more, at the end of
  -- its history and on its board, unless the move ended the game, when the room may be gone.
  pub on_message-IsMovedBy :
      (ws : ℕ) (msg : String) (now : ℕ) (d : PerSocketData) (id : String) (s : Server e)
      → find_first (is_socket ws) s.sockets ≡ some d
      → let t = (on_message ws msg now s).1 in
        (find_room id t.rooms ≡ find_room id s.rooms) ⊎ IsMoveOf (e.parse msg) d id s t
  on_message-IsMovedBy ws msg now d id s found =
      elim (Bool-cases (ltb max_message_bytes (e.size msg))) [
        | inl large ↦
            rw (on_message-large ws msg now d s found large)
              (inl (ap (find_room id) (reply-rooms ws "message_too_large" "message too large" s)))
        | inr small ↦ elim (Bool-cases (ltb rate_limit_max (count_message now d).msg_count)) [
          | inl over ↦ rw (on_message-limited ws msg now d s found small over) (
              inl (
                ap (find_room id)
                  (reply-rooms ws "rate_limit_exceeded" "rate limit exceeded" (counted ws now s))))
          | inr under ↦
              rw (on_message-dispatched ws msg now d s found small under)
                (elim (dispatch-boards ws (count_message now d) (e.parse msg) (counted ws now s)
                  id) [
                    | inl same ↦ inl same
                    | inr m ↦ inr (
                        counted_moved (e.parse msg) now d id (counted ws now s)
                          (dispatch e ws (count_message now d) (e.parse msg) (counted ws now s)).1
                          m)
                  ])
        ]
      ]
