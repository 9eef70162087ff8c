-- ===== src/GameServer/Closing.antt =====
-- The end of a connection on services/gameserver/src/server.cpp.
use secure_chess.Prelude.{
  ℕ, String, ◌≡◌, refl, Bool, true, false, Option, none, some, List, [], ◌∷◌, find_first, exists,
  update_where, remove_where, find_first-update_where, find_first-remove_where, Bool-cases, inl,
  inr, ◌⊎◌, arith,
}
use secure_chess.Exec.{ok}
use secure_chess.GameServer.{
  Engine, Server, PerSocketData, MatchRoom, Message, opponent_disconnected, is_socket, is_open,
  is_room, find_room, set_slot, update_room, drop_room, decrement,
}
use secure_chess.GameServer.Handlers.{is_white, both_empty, remove_socket, leave_room, on_close}
use secure_chess.GameServer.Sends.{
  IsOpenSlot, tell_room, get_user_data-open, broadcast_to_room-open,
}

absent :
    (ws : ℕ) (sockets : List PerSocketData)
    → is_open ws (remove_where (is_socket ws) sockets) ≡ false
unfolding exists remove_where
absent ws [] = refl
absent ws (d ∷ sockets) = ground (arith, absent ws sockets)

module _ {e : Engine} where
  keyed :
      (white : Bool) (slot : Option ℕ) (id : String) (x : MatchRoom e)
      → is_room id (set_slot white slot x) ≡ is_room id x
  keyed true slot id x = refl
  keyed false slot id x = refl

  -- the room without the socket's player
  abbrev pub left : PerSocketData → MatchRoom e → MatchRoom e
  left d room = set_slot (is_white d.color) none room

  -- nobody is told in an empty room
  silent :
      (room : MatchRoom e)
      → both_empty room ≡ true
      → (sent : List (ℕ × Message)) → tell_room room opponent_disconnected sent ≡ sent
  silent room empty sent = ground arith

  module _ (ws : ℕ) (d : PerSocketData) (room : MatchRoom e) (s : Server e)
      (found : find_first (is_socket ws) s.sockets ≡ some d)
      (live : find_room d.game_id s.rooms ≡ some room)
      (h : IsOpenSlot (remove_where (is_socket ws) s.sockets) (left d room).white)
      (k : IsOpenSlot (remove_where (is_socket ws) s.sockets) (left d room).black) where
    -- the server without the socket, once the other player is told
    abbrev told : Server e
    told = record s {
      sockets = remove_where (is_socket ws) s.sockets;
      connected_sockets = decrement s.connected_sockets;
      rooms = update_where (is_room d.game_id) (set_slot (is_white d.color) none) s.rooms;
      sent = tell_room (left d room) opponent_disconnected s.sent;
    }

    close-told : both_empty (left d room) ≡ false → on_close ws s ≡ (ok tt, told)
    unfolding on_close remove_socket leave_room update_room
    close-told stays =
        let a = get_user_data-open ws s d found in
        let t : Server e = record s {
          sockets = remove_where (is_socket ws) s.sockets;
          connected_sockets = decrement s.connected_sockets;
          rooms = update_where (is_room d.game_id) (set_slot (is_white d.color) none) s.rooms;
        } in
        let b = broadcast_to_room-open (left d room) opponent_disconnected t h k in ground arith

    close-dropped : both_empty (left d room) ≡ true → on_close ws s ≡ drop_room d.game_id told
    unfolding on_close remove_socket leave_room update_room
    close-dropped empty =
        let a = get_user_data-open ws s d found in
        let t : Server e = record s {
          sockets = remove_where (is_socket ws) s.sockets;
          connected_sockets = decrement s.connected_sockets;
          rooms = update_where (is_room d.game_id) (set_slot (is_white d.color) none) s.rooms;
        } in
        let b = broadcast_to_room-open (left d room) opponent_disconnected t h k in ground arith

    told-room : find_room d.game_id told.rooms ≡ some (left d room)
    told-room =
        find_first-update_where (is_room d.game_id) (set_slot (is_white d.color) none)
          (keyed (is_white d.color) none d.game_id) s.rooms room live

-- The close of an open socket whose player has a room, with the other player's socket empty or
-- open: the handler returns, the socket is no longer open, and the slot of its colour in the room
-- is empty, even if it held another socket by then. If that leaves a player in the room, the room
-- stays, with its board and moves, and the player is told of it; if it does not, the room is gone
-- and nothing is sent.
pub on_close_lem :
    {e : Engine} (ws : ℕ) (d : PerSocketData) (room : MatchRoom e) (s : Server e)
    → find_first (is_socket ws) s.sockets ≡ some d
    → find_room d.game_id s.rooms ≡ some room
    → IsOpenSlot (remove_where (is_socket ws) s.sockets) (left d room).white
    → IsOpenSlot (remove_where (is_socket ws) s.sockets) (left d room).black
    → let (r, t) = on_close ws s in
      (r ≡ ok tt)
      × (is_open ws t.sockets ≡ false)
      × (((both_empty (left d room) ≡ false)
            × (find_room d.game_id t.rooms ≡ some (left d room))
            × (t.sent ≡ tell_room (left d room) opponent_disconnected s.sent))
          ⊎ ((both_empty (left d room) ≡ true)
              × (find_room d.game_id t.rooms ≡ none)
              × (t.sent ≡ s.sent)))
unfolding drop_room
on_close_lem ws d room s found live h k = elim (Bool-cases (both_empty (left d room))) [
  | inr stays ↦
      rw (close-told ws d room s found live h k stays)
        (refl, absent ws s.sockets, inl (stays, told-room ws d room s found live h k, refl))
  | inl empty ↦ rw (close-dropped ws d room s found live h k empty) (
    refl,
    absent ws s.sockets,
    inr (
      empty,
      find_first-remove_where (is_room d.game_id) (told ws d room s found live h k).rooms,
      silent (left d room) empty s.sent,
    ),
  )
]
