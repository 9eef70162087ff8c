-- ===== src/GameServer/Consistent.antt =====
-- The invariant of the game server: its gauges, its keys, and the board of every room.
use secure_chess.Prelude.{
  ℕ, ◌+◌, ◌<◌, String, ◌≡◌, refl, ◌∙◌, sym, exists-fails, Bool, true, false, Option, none, some,
  List, [], ◌∷◌, eq_iff, find_first, exists, add_row, All, Distinct, All-add_row, All-map,
  All-found, All-update_where, All-remove_where, All-update_found, Distinct-add_row,
  Distinct-update_where, Distinct-remove_where, length, length-add_row, length-update_where,
  length-remove_where, Bool-cases, inl, inr, if◌then◌else◌, arith,
}
use secure_chess.GameServer.{
  Engine, Server, PerSocketData, MatchRoom, Gauge, is_socket, is_room, new_room, set_slot,
  set_user_data, update_room, make_room, drop_room,
}
use secure_chess.GameServer.Handlers.{is_legal, after_move, on_open, remove_socket}
use secure_chess.GameServer.Quiet.{SameCore}

-- the board after the moves, each of them legal where it was made
unfoldable pub replay : (e : Engine) → e.Board → List String → Option e.Board
replay e board [] = some board
replay e board (m ∷ moves) =
    let move = e.uci_to_move board m in
    let rest = replay e (e.make_move board move) moves in
    if is_legal e move (e.legal_moves board) then rest else none

replay-add_row :
    (e : Engine) (board after : e.Board) (moves : List String) (m : String)
    → replay e board moves ≡ some after
    → is_legal e (e.uci_to_move after m) (e.legal_moves after) ≡ true
    → replay e board (add_row moves m) ≡ some (e.make_move after (e.uci_to_move after m))
unfolding replay add_row
replay-add_row e board after [] m h legal = ground arith
replay-add_row e board after (x ∷ moves) m h legal =
    elim (Bool-cases (is_legal e (e.uci_to_move board x) (e.legal_moves board))) [
      | inl l ↦ rw l (
          replay-add_row e (e.make_move board (e.uci_to_move board x)) after moves m (ground arith)
            legal)
      | inr n ↦ absurd (ground arith)
    ]

abbrev pub IsExact : ℕ → Gauge → Type 0
IsExact n g = g.ups ≡ g.downs + n

abbrev pub same_socket : PerSocketData → PerSocketData → Bool
same_socket a b = is_socket b.socket_id a

same_id :
    (id : ℕ) (x y : PerSocketData)
    → is_socket id x ≡ true
    → is_socket id y ≡ true
    → same_socket x y ≡ true
same_id id x y h k = ground arith

module _ {e : Engine} where
  abbrev pub same_room : MatchRoom e → MatchRoom e → Bool
  same_room a b = is_room b.match_id a

  -- the board of the room is that after its moves, from the start
  abbrev pub IsReplayed : MatchRoom e → Type 0
  IsReplayed room = replay e e.start room.move_history ≡ some room.board

  -- No two rooms share an id, no two sockets, and ids of sockets are never used again; the two
  -- gauges show how many rooms and sockets there are; every board is that after legal moves.
  pub record IsConsistent (s : Server e) : Type 0 where
    pub rooms : Distinct same_room s.rooms
    pub sockets : Distinct same_socket s.sockets
    pub ids : All (λ (d : PerSocketData). d.socket_id < s.next_socket_id) s.sockets
    pub games : IsExact (length s.rooms) s.active_games
    pub connected : IsExact (length s.sockets) s.connected_sockets
    pub boards : All IsReplayed s.rooms

  pub IsConsistent-core : (s t : Server e) → SameCore s t → IsConsistent s → IsConsistent t
  IsConsistent-core s t (a, b, c, d, f) h = record {
    rooms = rw a h.rooms;
    sockets = rw b h.sockets;
    ids = rw (b, c) h.ids;
    games = rw (a, f) h.games;
    connected = rw (b, d) h.connected;
    boards = rw a h.boards;
  }

new_room-IsReplayed : (e : Engine) (id : String) → IsReplayed (new_room {e = e} id)
unfolding replay
new_room-IsReplayed e id = refl

module _ {e : Engine} where
  alike :
      (id : String) (x y : MatchRoom e)
      → is_room id x ≡ true
      → is_room id y ≡ true
      → same_room x y ≡ true
  alike id x y h k =
      let a = (eq_iff x.match_id id).0 h in
      let b = (eq_iff y.match_id id).0 k in (eq_iff x.match_id y.match_id).1 (a ∙ sym b)

  keyed :
      (ws : Option ℕ) (white : Bool) (x y : MatchRoom e)
      → same_room (set_slot white ws x) y ≡ same_room x y
  keyed ws true x y = refl
  keyed ws false x y = refl

  keyed' :
      (ws : Option ℕ) (white : Bool) (x y : MatchRoom e)
      → same_room x (set_slot white ws y) ≡ same_room x y
  keyed' ws true x y = refl
  keyed' ws false x y = refl

  kept :
      (ws : Option ℕ) (white : Bool) (x : MatchRoom e)
      → IsReplayed x
      → IsReplayed (set_slot white ws x)
  kept ws true x k = k
  kept ws false x k = k

  module _ (s : Server e) (h : IsConsistent s) where
    pub make_room-IsConsistent : (id : String) → IsConsistent (make_room id s).1
    unfolding make_room
    make_room-IsConsistent id = elim (Bool-cases (exists (is_room id) s.rooms)) [
      | inl there ↦ rw there h
      | inr new ↦ rw new (record {
        rooms = Distinct-add_row same_room s.rooms (new_room id) h.rooms new;
        sockets = h.sockets;
        ids = h.ids;
        games = omega (arith, h.games, length-add_row s.rooms (new_room id));
        connected = h.connected;
        boards = All-add_row IsReplayed s.rooms (new_room id) h.boards (new_room-IsReplayed e id);
      })
    ]

    pub drop_room-IsConsistent :
        (id : String) → exists (is_room id) s.rooms ≡ true → IsConsistent (drop_room id s).1
    unfolding drop_room
    drop_room-IsConsistent id there = record {
      rooms = Distinct-remove_where same_room (is_room id) s.rooms h.rooms;
      sockets = h.sockets;
      ids = h.ids;
      games = omega (
        arith,
        h.games,
        length-remove_where same_room (is_room id) (alike id) s.rooms h.rooms there,
      );
      connected = h.connected;
      boards = All-remove_where IsReplayed (is_room id) s.rooms h.boards;
    }

    -- an update that keeps the board and the moves of a room
    pub set_slot-IsConsistent :
        (id : String) (white : Bool) (ws : Option ℕ)
        → IsConsistent (update_room id (set_slot white ws) s).1
    unfolding update_room
    set_slot-IsConsistent id white ws = record {
      rooms =
          Distinct-update_where same_room _ _ (keyed ws white) (keyed' ws white) s.rooms h.rooms;
      sockets = h.sockets;
      ids = h.ids;
      games = rw (length-update_where (is_room id) (set_slot white ws) s.rooms) h.games;
      connected = h.connected;
      boards = All-update_where IsReplayed _ _ (kept ws white) s.rooms h.boards;
    }

    -- a legal move in the room that is found
    pub after_move-IsConsistent :
        (id move_str : String) (room : MatchRoom e)
        → find_first (is_room id) s.rooms ≡ some room
        → is_legal e (e.uci_to_move room.board move_str) (e.legal_moves room.board) ≡ true
        → IsConsistent
            (update_room id (λ r. after_move r (e.uci_to_move room.board move_str) move_str) s).1
    unfolding update_room
    after_move-IsConsistent id move_str room found legal = record {
      rooms = Distinct-update_where same_room _ _ (λ x y. refl) (λ x y. refl) s.rooms h.rooms;
      sockets = h.sockets;
      ids = h.ids;
      games =
          rw
            (length-update_where (is_room id)
              (λ r. after_move r (e.uci_to_move room.board move_str) move_str) s.rooms)
            h.games;
      connected = h.connected;
      boards =
          All-update_found same_room (is_room id) (alike id) IsReplayed _ s.rooms room h.rooms found
            (replay-add_row e e.start room.board room.move_history move_str
              (All-found _ IsReplayed s.rooms room found h.boards) legal)
            h.boards;
    }

    pub set_user_data-IsConsistent :
        (id : ℕ) (f : PerSocketData → PerSocketData)
        → ((d : PerSocketData) → (f d).socket_id ≡ d.socket_id)
        → IsConsistent (set_user_data id f s).1
    unfolding set_user_data
    set_user_data-IsConsistent id f keeps = record {
      rooms = h.rooms;
      sockets =
          Distinct-update_where same_socket _ f (λ x y. rw (keeps x) refl)
            (λ x y. rw (keeps y) refl) s.sockets h.sockets;
      ids = All-update_where _ _ f (λ d k. rw (keeps d) k) s.sockets h.ids;
      games = h.games;
      connected = rw (length-update_where (is_socket id) f s.sockets) h.connected;
      boards = h.boards;
    }

    pub on_open-IsConsistent : IsConsistent (on_open s).1
    unfolding on_open
    on_open-IsConsistent = record {
      rooms = h.rooms;
      sockets =
          Distinct-add_row same_socket s.sockets _ h.sockets
            (exists-fails _ s.sockets (All-map _ _ (λ d k. ground (arith, k)) s.sockets h.ids));
      ids =
          All-add_row _ s.sockets _ (All-map _ _ (λ d k. omega (arith, k)) s.sockets h.ids)
            (omega arith);
      games = h.games;
      connected = omega (arith, h.connected, length-add_row s.sockets);
      boards = h.boards;
    }

    pub remove_socket-IsConsistent :
        (id : ℕ) → exists (is_socket id) s.sockets ≡ true → IsConsistent (remove_socket id s).1
    unfolding remove_socket
    remove_socket-IsConsistent id there = record {
      rooms = h.rooms;
      sockets = Distinct-remove_where same_socket (is_socket id) s.sockets h.sockets;
      ids = All-remove_where _ (is_socket id) s.sockets h.ids;
      games = h.games;
      connected = omega (
        arith,
        h.connected,
        length-remove_where same_socket (is_socket id) (same_id id) s.sockets h.sockets there,
      );
      boards = h.boards;
    }
