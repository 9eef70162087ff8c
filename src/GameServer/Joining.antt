-- ===== src/GameServer/Joining.antt =====
-- `join_match` with a valid ticket on services/gameserver/src/server.cpp, and `resume_match` beside
-- it.
use secure_chess.Prelude.{
  ℕ, String, ◌≡◌, refl, ◌∙◌, Bool, true, false, some, none, List, add_row, find_first,
  find_first-exists, exists, find_first-update_where, find_first-add_row_new, Option-cases, inl,
  inr, ◌⊎◌, eq_refl, arith, [], ◌∷◌,
}
use secure_chess.Exec.{Result, ok}
use secure_chess.GameServer.{
  Engine, Server, PerSocketData, MatchRoom, VerifyResult, ResolveResult, join_verified,
  resume_resolved, joined, is_socket, is_room, find_room, room_at, new_room, set_slot, make_room,
  increment, resumed, opponent_reconnected,
}
use secure_chess.GameServer.Handlers.{is_white, join_open, run_deferred}
use secure_chess.GameServer.Sends.{IsOpenSlot, tell_room, send-open}
use secure_chess.GameServer.Resumption.{
  resumed_room, resumed_data, seated, seated-room, run-resumed, take_seat-seated, seated-open,
}

-- the seat of a verified player who asks for a colour
abbrev pub seat_of : VerifyResult → String → ResolveResult
seat_of v color = record {
  valid = true;
  match_id = v.match_id;
  user_id = v.player_id;
  color = color;
}

module _ {e : Engine} where
  missing-exists :
      (id : String) (rooms : List (MatchRoom e))
      → find_room id rooms ≡ none
      → exists (is_room id) rooms ≡ false
  unfolding find_first exists
  missing-exists id [] h = refl
  missing-exists id (r ∷ rooms) h = ground (arith, missing-exists id rooms)

  -- the server with a room under the id
  abbrev pub with_room : String → Server e → Server e
  with_room id s = (make_room id s).1

  make_room-there :
      (id : String) (room : MatchRoom e) (s : Server e)
      → find_room id s.rooms ≡ some room
      → make_room id s ≡ (ok tt, s)
  unfolding make_room
  make_room-there id room s h =
      let a = find_first-exists (is_room id) s.rooms room h in ground arith

  make_room-new :
      (id : String) (s : Server e)
      → find_room id s.rooms ≡ none
      → make_room id s ≡ (
        ok tt,
        record s { rooms = add_row s.rooms (new_room id); active_games = increment s.active_games },
      )
  unfolding make_room
  make_room-new id s h = let a = missing-exists id s.rooms h in ground arith

  new_room-found :
      (id : String) (rooms : List (MatchRoom e))
      → find_room id rooms ≡ none
      → find_room id (add_row rooms (new_room id)) ≡ some (new_room id)
  new_room-found id rooms h =
      find_first-add_row_new (is_room id) rooms (new_room id) (missing-exists id rooms h)
        (eq_refl id)

  module _ (id : ℕ) (color : String) (v : VerifyResult) (token : String) (d : PerSocketData)
      (s t : Server e) (room : MatchRoom e) (made : make_room v.match_id s ≡ (ok tt, t))
      (valid : v.valid ≡ true) (found : find_first (is_socket id) s.sockets ≡ some d)
      (open_there : find_first (is_socket id) t.sockets ≡ some d)
      (live : find_room v.match_id t.rooms ≡ some room) where
    run-joined : run_deferred (join_verified id color v token) s ≡ (
      ok tt,
      record (seated id (seat_of v color) t) {
        sent =
            add_row t.sent
              (id, joined color (e.get_fen (resumed_room id (seat_of v color) room).board) token);
      },
    )
    unfolding run_deferred join_open
    run-joined =
        let there = find_first-exists (is_socket id) s.sockets d found in
        let there' = find_first-exists (is_socket id) t.sockets d open_there in
        let r = seat_of v color in
        let a = take_seat-seated id r t in
        let b = seated-room id r token room d t open_there live in
        let c =
          send-open id (joined color (e.get_fen (resumed_room id r room).board) token)
            (seated id r t) (seated-open id r token room d t open_there live id ∙ there') in
        ground arith

  kept_board :
      (id : ℕ) (r : ResolveResult) (room : MatchRoom e)
      → (resumed_room id r room).board ≡ room.board
  kept_board id r room = go (is_white r.color) room
    where
      go : (white : Bool) (x : MatchRoom e) → (set_slot white (some id) x).board ≡ x.board
      go true x = refl
      go false x = refl

  -- the result and the server after a player has joined
  abbrev pub HasJoined :
      ℕ
      → String
      → VerifyResult
      → String
      → PerSocketData
      → Server e
      → Result {0} Unit × Server e
      → Type 0
  HasJoined id color v token d s (r, u) =
      let room = room_at v.match_id s.rooms in
      (r ≡ ok tt)
      × (find_first (is_socket id) u.sockets ≡ some (resumed_data (seat_of v color) d))
      × (find_room v.match_id u.rooms ≡ some (resumed_room id (seat_of v color) room))
      × (u.sent ≡ add_row s.sent (id, joined color (e.get_fen room.board) token))
      × (((find_room v.match_id s.rooms ≡ none) × (u.active_games ≡ increment s.active_games))
          ⊎ ((x : MatchRoom e) × (find_room v.match_id s.rooms ≡ some x)
              × (u.active_games ≡ s.active_games)))

  -- what the server shows once the player is seated in `room` of `t`, the server with its room
  joined_as :
      (id : ℕ) (color : String) (v : VerifyResult) (token : String) (d : PerSocketData)
      (s t : Server e) (room : MatchRoom e)
      → run_deferred (join_verified id color v token) s ≡ (
        ok tt,
        record (seated id (seat_of v color) t) {
          sent =
              add_row t.sent
                (id, joined color (e.get_fen (resumed_room id (seat_of v color) room).board) token);
        },
      )
      → find_first (is_socket id) t.sockets ≡ some d
      → find_room v.match_id t.rooms ≡ some room
      → t.sent ≡ s.sent
      → room_at v.match_id s.rooms ≡ room
      → ((find_room v.match_id s.rooms ≡ none) × (t.active_games ≡ increment s.active_games))
        ⊎ ((x : MatchRoom e) × (find_room v.match_id s.rooms ≡ some x)
            × (t.active_games ≡ s.active_games))
      → HasJoined id color v token d s (run_deferred (join_verified id color v token) s)
  joined_as id color v token d s t room run found live same at counted =
      let r = seat_of v color in
      rw (run, at)
        (
          refl,
          find_first-update_where (is_socket id) (resumed_data r) (λ y. refl) t.sockets d found,
          seated-room id r token room d t found live,
          rw (same, kept_board id r room) refl,
          counted,
        )

  -- A player with a valid ticket whose socket is open when the job is done gets a seat: the
  -- deferred function returns, and the socket has the match and the player of the ticket and the
  -- colour of the message, and stands in the slot of that colour in the room of the match, in place
  -- of whoever was there. The room is as it was, or a new one, which the gauge counts, if there was
  -- none. The socket is sent the colour, the board and the resume token.
  pub join_verified_lem :
      (id : ℕ) (color : String) (v : VerifyResult) (token : String) (d : PerSocketData)
      (s : Server e)
      → v.valid ≡ true
      → find_first (is_socket id) s.sockets ≡ some d
      → HasJoined id color v token d s (run_deferred (join_verified id color v token) s)
  join_verified_lem id color v token d s valid found =
      elim (Option-cases (find_room v.match_id s.rooms)) [
        | inl missing ↦
            let t : Server e = record s {
              rooms = add_row s.rooms (new_room v.match_id);
              active_games = increment s.active_games;
            } in
            let live = new_room-found v.match_id s.rooms missing in
            joined_as id color v token d s t (new_room v.match_id)
              (run-joined id color v token d s t (new_room v.match_id)
                (make_room-new v.match_id s missing) valid found found live)
              found live refl (rw (missing, room_at) refl) (inl (missing, refl))
        | inr (room, live) ↦
            joined_as id color v token d s s room
              (run-joined id color v token d s s room (make_room-there v.match_id room s live) valid
                found found live)
              found live refl (rw (live, room_at) refl) (inr (room, live, refl))
      ]

  -- Where the room of the match is there, the socket is open and the other slot of the room is
  -- empty or open, to resume a seat and to join with a ticket for the same match, player and colour
  -- come to the same: both return, both give the socket this match, player and colour and the slot of this
  -- colour, and all else of the server is equal but for the messages. Who joins is sent `joined`; who
  -- resumes is sent `resumed` with the moves, and then both sockets of the room `opponent_reconnected`.
  pub resume_open-join_open :
      (id : ℕ) (color : String) (v : VerifyResult) (token token' : String) (d : PerSocketData)
      (room : MatchRoom e) (s : Server e)
      → v.valid ≡ true
      → find_first (is_socket id) s.sockets ≡ some d
      → find_room v.match_id s.rooms ≡ some room
      → IsOpenSlot s.sockets (resumed_room id (seat_of v color) room).white
      → IsOpenSlot s.sockets (resumed_room id (seat_of v color) room).black
      → let (q, t) = run_deferred (join_verified id color v token) s in
        let (r, u) = run_deferred (resume_resolved id (seat_of v color) token') s in
        let room' = resumed_room id (seat_of v color) room in
        (q ≡ ok tt)
        × (r ≡ ok tt)
        × (find_first (is_socket id) t.sockets ≡ some (resumed_data (seat_of v color) d))
        × (find_room v.match_id t.rooms ≡ some room')
        × (record u { sent = t.sent } ≡ t)
        × (t.sent ≡ add_row s.sent (id, joined color (e.get_fen room.board) token))
        × (u.sent
            ≡ tell_room room' opponent_reconnected (
                add_row s.sent (id, resumed color (e.get_fen room.board) room.move_history token')))
  resume_open-join_open id color v token token' d room s valid found live h k =
      let x = seat_of v color in
      let join =
        run-joined id color v token d s s room (make_room-there v.match_id room s live) valid found
          found live in
      let resume = run-resumed id x token' room d s found live refl h k in
      (
        rw join refl,
        rw resume refl,
        rw join
            (find_first-update_where (is_socket id) (resumed_data x) (λ y. refl) s.sockets d found),
        rw join (seated-room id x token room d s found live),
        rw (join, resume) refl,
        rw (join, kept_board id x room) refl,
        rw resume refl,
      )
