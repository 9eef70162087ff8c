-- ===== src/GameServer/Leads.antt =====
-- Rules for what holds after a handler of the game server, and the moves by them.
use secure_chess.Prelude.{
  ℕ, String, ◌≡◌, refl, ◌∙◌, Bool, true, false, Option, none, some, find_first-exists, exists,
  exists-update_where, Bool-cases, Option-cases, inl, inr, if◌then◌else◌,
}
use secure_chess.Exec.{pure, ◌>>=◌}
use secure_chess.Exec.Laws.{Result-cases}
use secure_chess.GameServer.{
  Engine, Server, PerSocketData, MatchRoom, Live, is_room, find_room, reply_error, update_room,
  drop_room,
}
use secure_chess.GameServer.Handlers.{
  is_legal, is_white, after_move, finish_if_over, announce, same_bool, play, play_if_legal,
  move_in_room, on_move,
}
use secure_chess.GameServer.Quiet.{Quiet, get_user_data-cases, quiet_rules, reply_error-Quiet}
use secure_chess.GameServer.Consistent.{
  IsConsistent, IsConsistent-core, drop_room-IsConsistent, after_move-IsConsistent,
}

module _ {e : Engine} where
  -- from a state with `P`, whatever comes of `m`, to one with `Q`
  pub record Leads (P Q : Server e → Type 0) {A : Type 0} (m : Live e A) : Type 0 where
    pub at : (s : Server e) → P s → Q (m s).1

  abbrev pub Steady : {A : Type 0} → Live e A → Type 0
  Steady m = Leads IsConsistent IsConsistent m

  -- the invariant, and a room under that id
  abbrev pub Has : String → Server e → Type 0
  Has id s = IsConsistent s × (exists (is_room id) s.rooms ≡ true)

  pub Has-Quiet : {A : Type 0} (id : String) (m : Live e A) → Quiet m → Leads (Has id) (Has id) m
  Has-Quiet id m q = record {
    at = λ s h. let core = q.at s in (IsConsistent-core s (m s).1 core h.0, rw core.0 h.1);
  }

  pub Steady-Quiet : {A : Type 0} (m : Live e A) → Quiet m → Steady m
  Steady-Quiet m q = record { at = λ s h. IsConsistent-core s (m s).1 (q.at s) h }

  pub reply-Steady : (ws : ℕ) (reason text : String) → Steady (reply_error ws reason text)
  reply-Steady ws reason text = Steady-Quiet _ (reply_error-Quiet ws reason text)

  pub Leads-bind :
      {A B : Type 0} {P Q : Server e → Type 0} (m : Live e A) (f : A → Live e B)
      → Leads P P m
      → ((s : Server e) → P s → Q s)
      → ((a : A) → Leads P Q (f a))
      → Leads P Q (m >>= f)
  Leads-bind m f km weaker kf = record {
    at = λ s h. elim (Result-cases (m s).0) [
      | inl (a, r) ↦ rw (r, ◌>>=◌) ((kf a).at (m s).1 (km.at s h))
      | inr (x, r) ↦ rw (r, ◌>>=◌) (weaker (m s).1 (km.at s h))
    ];
  }

  pub Has-weaker : (id : String) (s : Server e) → Has id s → IsConsistent s
  Has-weaker id s h = h.0

  pub same : (s : Server e) → IsConsistent s → IsConsistent s
  same s h = h

  pub Leads-if :
      {A : Type 0} {P Q : Server e → Type 0} (b : Bool) (m n : Live e A)
      → Leads P Q m
      → Leads P Q n
      → Leads P Q (if b then m else n)
  Leads-if true m n km kn = km
  Leads-if false m n km kn = kn

  pub Has-drop_room : (id : String) → Leads (Has id) IsConsistent (drop_room id)
  Has-drop_room id = record { at = λ s h. drop_room-IsConsistent s h.0 id h.1 }

  pub Has-pure : (id : String) → Leads (Has id) IsConsistent (pure tt)
  Has-pure id = record { at = λ s h. h.0 }

  pub ruleset has_rules =
      (Leads-bind, Leads-if, Has-Quiet, Has-weaker, Has-drop_room, Has-pure, quiet_rules)

  finish_if_over-Leads :
      (id : String) (room : MatchRoom e) → Leads (Has id) IsConsistent (finish_if_over id room)
  unfolding finish_if_over
  finish_if_over-Leads id room = search has_rules depth 14

  pub Has-update_room :
      (id : String) (f : MatchRoom e → MatchRoom e) (s : Server e)
      → ((x : MatchRoom e) → is_room id (f x) ≡ is_room id x)
      → IsConsistent (update_room id f s).1
      → exists (is_room id) s.rooms ≡ true
      → Has id (update_room id f s).1
  unfolding update_room
  Has-update_room id f s keyed h there =
      (h, exists-update_where (is_room id) (is_room id) f keyed s.rooms ∙ there)

  announce-Leads :
      (id : String) (room : MatchRoom e) (move_str : String)
      → Leads (Has id) IsConsistent (announce id room move_str)
  unfolding announce
  announce-Leads id room move_str = search (has_rules, finish_if_over-Leads) depth 8

  play-IsConsistent :
      (id move_str : String) (room : MatchRoom e) (s : Server e)
      → IsConsistent s
      → find_room id s.rooms ≡ some room
      → is_legal e (e.uci_to_move room.board move_str) (e.legal_moves room.board) ≡ true
      → IsConsistent (play id room (e.uci_to_move room.board move_str) move_str s).1
  unfolding play update_room
  play-IsConsistent id move_str room s h found legal =
      let f = λ (r : MatchRoom e). after_move r (e.uci_to_move room.board move_str) move_str in
      let moved = after_move-IsConsistent s h id move_str room found legal in
      let has =
        Has-update_room id f s (λ x. refl) moved
          (find_first-exists (is_room id) s.rooms room found) in
      (announce-Leads id (after_move room (e.uci_to_move room.board move_str) move_str) move_str).at
        (update_room id f s).1 has

  play_if_legal-IsConsistent :
      (ws : ℕ) (id move_str : String) (room : MatchRoom e) (s : Server e)
      → IsConsistent s
      → find_room id s.rooms ≡ some room
      → IsConsistent (play_if_legal ws id room move_str s).1
  unfolding play_if_legal
  play_if_legal-IsConsistent ws id move_str room s h found =
      elim (Bool-cases
        (is_legal e (e.uci_to_move room.board move_str) (e.legal_moves room.board))) [
          | inl legal ↦ rw legal (play-IsConsistent id move_str room s h found legal)
          | inr illegal ↦ rw illegal ((reply-Steady ws "illegal_move" "illegal move").at s h)
        ]

  move_in_room-IsConsistent :
      (ws : ℕ) (d : PerSocketData) (json : e.Json) (o : Option (MatchRoom e)) (s : Server e)
      → IsConsistent s
      → find_room d.game_id s.rooms ≡ o
      → IsConsistent (move_in_room e ws d json o s).1
  unfolding move_in_room
  move_in_room-IsConsistent ws d json none s h found = h
  move_in_room-IsConsistent ws d json (some room) s h found =
      elim (Bool-cases (same_bool (e.white_to_move room.board) (is_white d.color))) [
        | inr other ↦ rw other ((reply-Steady ws "not_your_turn" "not your turn").at s h)
        | inl mine ↦ elim (Option-cases (e.value json "move")) [
          | inl bad ↦ rw (mine, bad) h
          | inr (m, given) ↦
              rw (mine, given) (play_if_legal-IsConsistent ws d.game_id m room s h found)
        ]
      ]

  pub on_move-Steady : (ws : ℕ) (d : PerSocketData) (json : e.Json) → Steady (on_move e ws d json)
  unfolding on_move
  on_move-Steady ws d json = record {
    at = λ s h. move_in_room-IsConsistent ws d json (find_room d.game_id s.rooms) s h refl;
  }
