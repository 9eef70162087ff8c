-- ===== src/GameServer/Sends.antt =====
-- What the game server sends to sockets that are open: services/gameserver/src/server.cpp,
-- `broadcastToRoom` and the calls of `send`.
use secure_chess.Prelude.{
  ℕ, String, ◌≡◌, refl, true, Option, none, some, List, add_row, find_first, exists, Bool-cases, [],
  ◌∷◌, inl, inr, arith,
}
use secure_chess.Exec.{ok}
use secure_chess.GameServer.{
  Engine, Server, PerSocketData, Message, error_message, MatchRoom, is_socket, is_open,
  get_user_data, send, send_if, broadcast_to_room, reply_error,
}

abbrev pub tell : Option ℕ → Message → List (ℕ × Message) → List (ℕ × Message)
tell none m sent = sent
tell (some id) m sent = add_row sent (id, m)

-- what is sent, when both players of the room are told
abbrev pub tell_room :
    {e : Engine} → MatchRoom e → Message → List (ℕ × Message) → List (ℕ × Message)
tell_room room m sent = tell room.black m (tell room.white m sent)

-- no socket, or one that is open
abbrev pub IsOpenSlot : List PerSocketData → Option ℕ → Type 0
IsOpenSlot sockets none = Unit
IsOpenSlot sockets (some id) = is_open id sockets ≡ true

pub open-found :
    (id : ℕ) (sockets : List PerSocketData)
    → is_open id sockets ≡ true
    → (d : PerSocketData) × (find_first (is_socket id) sockets ≡ some d)
unfolding find_first exists
open-found id [] h = absurd (ground arith)
open-found id (x ∷ sockets) h = elim (Bool-cases (is_socket id x)) [
  | inl t ↦ (x, ground arith)
  | inr u ↦ let (d, k) = open-found id sockets (ground arith) in (d, ground arith)
]

module _ {e : Engine} where
  pub get_user_data-open :
      (id : ℕ) (s : Server e) (d : PerSocketData)
      → find_first (is_socket id) s.sockets ≡ some d
      → get_user_data id s ≡ (ok d, s)
  unfolding get_user_data
  get_user_data-open id s d h = rw (h, get_user_data) refl

  pub send-open :
      (id : ℕ) (m : Message) (s : Server e)
      → is_open id s.sockets ≡ true
      → send id m s ≡ (ok tt, record s { sent = add_row s.sent (id, m) })
  unfolding send
  send-open id m s h =
      let (d, k) = open-found id s.sockets h in let a = get_user_data-open id s d k in ground arith

  pub send_if-open :
      (slot : Option ℕ) (m : Message) (s : Server e)
      → IsOpenSlot s.sockets slot
      → send_if slot m s ≡ (ok tt, record s { sent = tell slot m s.sent })
  send_if-open none m s h = refl
  send_if-open (some id) m s h = send-open id m s h

  pub broadcast_to_room-open :
      (room : MatchRoom e) (m : Message) (s : Server e)
      → IsOpenSlot s.sockets room.white
      → IsOpenSlot s.sockets room.black
      → broadcast_to_room room m s ≡ (ok tt, record s { sent = tell_room room m s.sent })
  unfolding broadcast_to_room
  broadcast_to_room-open room m s h k =
      let a = send_if-open room.white m s h in
      let b = send_if-open room.black m (record s { sent = tell room.white m s.sent }) k in
      ground arith

  pub reply_error-open :
      (id : ℕ) (reason text : String) (s : Server e)
      → is_open id s.sockets ≡ true
      → reply_error id reason text s ≡ (
        ok tt,
        record s {
          errors = add_row s.errors reason;
          sent = add_row s.sent (id, error_message text);
        },
      )
  unfolding reply_error
  reply_error-open id reason text s h =
      send-open id (error_message text) (record s { errors = add_row s.errors reason }) h
