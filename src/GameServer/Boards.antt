-- ===== src/GameServer/Boards.antt =====
-- Which messages touch a board on services/gameserver/src/server.cpp.
use secure_chess.Prelude.{
  ℕ, String, ◌≡◌, refl, ◌∙◌, sym, ap, true, false, none, some, List, update_where, remove_where,
  str_eq, eq_iff, find_first-update_where, find_first-remove_where, find_first-update_other,
  find_first-remove_other, Bool-cases, Option-cases, inl, inr, ◌⊎◌, arith,
}
use secure_chess.Exec.{ok, pure}
use secure_chess.GameServer.{
  Engine, Server, PerSocketData, MatchRoom, Live, is_room, find_room, update_room, drop_room,
  reply_error,
}
use secure_chess.GameServer.Handlers.{
  is_white, same_bool, is_none, is_legal, finish_if_over, after_move, announce, play, move_in_room,
  on_move,
}
use secure_chess.GameServer.Quiet.{Quiet, quiet_rules, reply_error-Quiet}
use secure_chess.GameServer.Leads.{Leads, Leads-bind, Leads-if}
use secure_chess.GameServer.Plays.{finish_if_over-goes_on}
use secure_chess.GameServer.Moves.{on_move-other, on_move-bad, on_move-illegal, on_move-legal}

module _ {e : Engine} where
  -- the rooms are these, or these without that of the id
  module _ (id : String) (rooms : List (MatchRoom e)) where
    abbrev Same : Server e → Type 0
    Same s = s.rooms ≡ rooms

    abbrev Less : Server e → Type 0
    Less s = (s.rooms ≡ rooms) ⊎ (s.rooms ≡ remove_where (is_room id) rooms)

    Same-Quiet : {A : Type 0} (m : Live e A) → Quiet m → Leads Same Same m
    Same-Quiet m q = record { at = λ s h. (q.at s).0 ∙ h }

    Same-weaker : (s : Server e) → Same s → Less s
    Same-weaker s h = inl h

    Same-pure : Leads Same Less (pure tt)
    Same-pure = record { at = λ s h. inl h }

    Same-drop : Leads Same Less (drop_room id)
    unfolding drop_room
    Same-drop = record { at = λ s h. inr (ap (remove_where (is_room id)) h) }

    ruleset less_rules =
        (Leads-bind, Leads-if, Same-Quiet, Same-weaker, Same-pure, Same-drop, quiet_rules)

    finish_if_over-Less : (room : MatchRoom e) → Leads Same Less (finish_if_over id room)
    unfolding finish_if_over
    finish_if_over-Less room = search less_rules depth 14

    announce-Less : (room : MatchRoom e) (m : String) → Leads Same Less (announce id room m)
    unfolding announce
    announce-Less room m = search (less_rules, finish_if_over-Less) depth 8

  finish_if_over-Quiet :
      (id : String) (room : MatchRoom e)
      → is_none (e.is_game_over room.board).1 ≡ true
      → Quiet (finish_if_over id room)
  finish_if_over-Quiet id room on = record {
    at = λ s. rw (finish_if_over-goes_on id room s on) (refl, refl, refl, refl, refl);
  }

  announce-Quiet :
      (id : String) (room : MatchRoom e) (m : String)
      → is_none (e.is_game_over room.board).1 ≡ true
      → Quiet (announce id room m)
  unfolding announce
  announce-Quiet id room m on = search (quiet_rules, finish_if_over-Quiet)

  -- the room has made this move, and is there unless the game is over
  abbrev pub HasMoved : String → MatchRoom e → String → Server e → Type 0
  HasMoved id room m t =
      let after = after_move room (e.uci_to_move room.board m) m in
      (find_room id t.rooms ≡ some after)
      ⊎ ((find_room id t.rooms ≡ none) × (is_none (e.is_game_over after.board).1 ≡ false))

  moved_rooms : String → e.Move → String → List (MatchRoom e) → List (MatchRoom e)
  moved_rooms id move m rooms = update_where (is_room id) (λ r. after_move r move m) rooms

  play-Less :
      (id m : String) (move : e.Move) (room : MatchRoom e) (s : Server e)
      → Less id (moved_rooms id move m s.rooms) (play id room move m s).1
  unfolding play update_room moved_rooms
  play-Less id m move room s =
      (announce-Less id (moved_rooms id move m s.rooms) (after_move room move m) m).at
        (update_room id (λ r. after_move r move m) s).1 refl

  play-Same :
      (id m : String) (move : e.Move) (room : MatchRoom e) (s : Server e)
      → is_none (e.is_game_over (after_move room move m).board).1 ≡ true
      → (play id room move m s).1.rooms ≡ moved_rooms id move m s.rooms
  unfolding play update_room moved_rooms
  play-Same id m move room s on =
      ((announce-Quiet id (after_move room move m) m on).at
        (update_room id (λ r. after_move r move m) s).1).0

  found_moved :
      (id m : String) (move : e.Move) (room : MatchRoom e) (rooms : List (MatchRoom e))
      → find_room id rooms ≡ some room
      → find_room id (moved_rooms id move m rooms) ≡ some (after_move room move m)
  unfolding moved_rooms
  found_moved id m move room rooms found =
      find_first-update_where (is_room id) (λ r. after_move r move m) (λ r. refl) rooms room found

  play-HasMoved :
      (id m : String) (room : MatchRoom e) (s : Server e)
      → find_room id s.rooms ≡ some room
      → HasMoved id room m (play id room (e.uci_to_move room.board m) m s).1
  play-HasMoved id m room s found =
      let move = e.uci_to_move room.board m in
      let moved = found_moved id m move room s.rooms found in
      elim (Bool-cases (is_none (e.is_game_over (after_move room move m).board).1)) [
        | inl on ↦ inl (rw (play-Same id m move room s on) moved)
        | inr over ↦ elim (play-Less id m move room s) [
          | inl same ↦ inl (rw same moved)
          | inr less ↦
              inr (
                rw less (find_first-remove_where (is_room id) (moved_rooms id move m s.rooms)),
                over,
              )
        ]
      ]

  apart :
      (id k : String)
      → str_eq k id ≡ false
      → (r : MatchRoom e) → is_room id r ≡ true
      → is_room k r ≡ false
  apart id k differ r h = elim (Bool-cases (is_room k r)) [
    | inr miss ↦ miss
    | inl hit ↦ absurd (
        ground
          (arith, (eq_iff k id).1 (sym ((eq_iff r.match_id k).0 hit) ∙ (eq_iff r.match_id id).0 h)))
  ]

  play-others :
      (id k m : String) (move : e.Move) (room : MatchRoom e) (s : Server e)
      → str_eq k id ≡ false
      → find_room k (play id room move m s).1.rooms ≡ find_room k s.rooms
  unfolding moved_rooms
  play-others id k m move room s differ =
      let f = λ (r : MatchRoom e). after_move r move m in
      let a =
        find_first-update_other (is_room k) (is_room id) (apart id k differ) f (λ r. refl)
          s.rooms in
      elim (play-Less id m move room s) [
        | inl same ↦ rw same a
        | inr less ↦
            rw less (find_first-remove_other (is_room k) (is_room id) (apart id k differ) _ ∙ a)
      ]

  -- The player has made the legal move that the message gives, at his turn, in the room of that id,
  -- which is the player's.
  abbrev pub IsMovedBy : e.Json → PerSocketData → String → Server e → Server e → Type 0
  IsMovedBy json d id s t =
      (d.game_id ≡ id)
      × (room : MatchRoom e) × (find_room id s.rooms ≡ some room)
      × (same_bool (e.white_to_move room.board) (is_white d.color) ≡ true)
      × (m : String) × (e.value json "move" ≡ some m)
      × (is_legal e (e.uci_to_move room.board m) (e.legal_moves room.board) ≡ true)
      × HasMoved id room m t

  on_move-none :
      (ws : ℕ) (d : PerSocketData) (json : e.Json) (s : Server e)
      → find_room d.game_id s.rooms ≡ none
      → on_move e ws d json s ≡ (ok tt, s)
  unfolding on_move move_in_room
  on_move-none ws d json s missing = ground arith

  pub reply-rooms :
      (ws : ℕ) (reason text : String) (s : Server e)
      → (reply_error ws reason text s).1.rooms ≡ s.rooms
  reply-rooms ws reason text s = ((reply_error-Quiet ws reason text).at s).0

  -- a legal move, seen from the room of the id
  play-boards :
      (json : e.Json) (d : PerSocketData) (id m : String) (room : MatchRoom e) (s : Server e)
      → find_room d.game_id s.rooms ≡ some room
      → e.value json "move" ≡ some m
      → same_bool (e.white_to_move room.board) (is_white d.color) ≡ true
      → is_legal e (e.uci_to_move room.board m) (e.legal_moves room.board) ≡ true
      → let t = (play d.game_id room (e.uci_to_move room.board m) m s).1 in
        (find_room id t.rooms ≡ find_room id s.rooms) ⊎ IsMovedBy json d id s t
  play-boards json d id m room s found given mine legal = elim (Bool-cases (str_eq id d.game_id)) [
    | inr differ ↦ inl (play-others d.game_id id m (e.uci_to_move room.board m) room s differ)
    | inl same ↦
        let own = (eq_iff id d.game_id).0 same in
        rw own
          (inr (refl, room, found, mine, m, given, legal, play-HasMoved d.game_id m room s found))
  ]

  pub on_move-boards :
      (ws : ℕ) (d : PerSocketData) (json : e.Json) (s : Server e) (id : String)
      → let t = (on_move e ws d json s).1 in
        (find_room id t.rooms ≡ find_room id s.rooms) ⊎ IsMovedBy json d id s t
  on_move-boards ws d json s id = elim (Option-cases (find_room d.game_id s.rooms)) [
    | inl missing ↦ rw (on_move-none ws d json s missing) (inl refl)
    | inr (room, found) ↦
        elim (Bool-cases (same_bool (e.white_to_move room.board) (is_white d.color))) [
          | inr other ↦
              rw (on_move-other ws d json room s found other)
                (inl (ap (find_room id) (reply-rooms ws "not_your_turn" "not your turn" s)))
          | inl mine ↦ elim (Option-cases (e.value json "move")) [
            | inl bad ↦ rw (on_move-bad ws d json room s found mine bad) (inl refl)
            | inr (m, given) ↦
                elim (Bool-cases
                  (is_legal e (e.uci_to_move room.board m) (e.legal_moves room.board))) [
                    | inr illegal ↦
                        rw (on_move-illegal ws d json room s found mine m given illegal)
                          (inl (ap (find_room id) (reply-rooms ws "illegal_move" "illegal move" s)))
                    | inl legal ↦
                        rw (on_move-legal ws d json room s found mine m given legal)
                          (play-boards json d id m room s found given mine legal)
                  ]
          ]
        ]
  ]
