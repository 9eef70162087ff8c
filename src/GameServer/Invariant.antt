-- ===== src/GameServer/Invariant.antt =====
-- Every handler of the game server keeps the invariant.
use secure_chess.Prelude.{
  ℕ, String, ◌≡◌, refl, Bool, true, false, Option, none, some, find_first-exists, exists, inl, inr,
  arith,
}
use secure_chess.Exec.{gets, ◌>>=◌, ◌>>◌}
use secure_chess.GameServer.{
  Engine, Server, PerSocketData, MatchRoom, VerifyResult, ResolveResult, Deferred, join_verified,
  resume_resolved, is_socket, is_room, find_room, set_slot, set_user_data, update_room, make_room,
}
use secure_chess.GameServer.Handlers.{
  is_white, count_message, on_join_match, on_resume_match, dispatch, on_message, on_open,
  remove_socket, leave_room, on_close, take_seat, retake_seat, join_open, resume_in_room,
  resume_open, run_deferred, reject,
}
use secure_chess.GameServer.Quiet.{get_user_data-cases, quiet_rules}
use secure_chess.GameServer.Consistent.{
  IsConsistent, make_room-IsConsistent, set_slot-IsConsistent, set_user_data-IsConsistent,
  on_open-IsConsistent, remove_socket-IsConsistent,
}
use secure_chess.GameServer.Leads.{
  Leads, Steady, Leads-bind, Leads-if, has_rules, Has, Steady-Quiet, reply-Steady, same,
  Has-update_room, on_move-Steady,
}

count_message_id : (now : ℕ) (d : PerSocketData) → (count_message now d).socket_id ≡ d.socket_id
count_message_id now d = ground arith

module _ {e : Engine} where
  gets-Steady : {A : Type 0} (f : Server e → A) → Steady {e = e} (gets f)
  gets-Steady f = record { at = λ s h. h }

  set_user_data-Steady :
      (id : ℕ) (f : PerSocketData → PerSocketData)
      → ((d : PerSocketData) → (f d).socket_id ≡ d.socket_id)
      → Steady {e = e} (set_user_data id f)
  set_user_data-Steady id f keeps = record { at = λ s h. set_user_data-IsConsistent s h id f keeps }

  set_slot-Steady :
      (id : String) (white : Bool) (ws : Option ℕ)
      → Steady {e = e} (update_room id (set_slot white ws))
  set_slot-Steady id white ws = record { at = λ s h. set_slot-IsConsistent s h id white ws }

  make_room-Steady : (id : String) → Steady {e = e} (make_room id)
  make_room-Steady id = record { at = λ s h. make_room-IsConsistent s h id }

  ruleset steady_rules = (
    Leads-bind, Leads-if, same, Steady-Quiet, quiet_rules, on_move-Steady, gets-Steady,
    set_slot-Steady, make_room-Steady,
  )

  on_join_match-Steady : (ws : ℕ) (json : e.Json) → Steady {e = e} (on_join_match e ws json)
  unfolding on_join_match
  on_join_match-Steady ws json = search steady_rules depth 8

  on_resume_match-Steady : (ws : ℕ) (json : e.Json) → Steady {e = e} (on_resume_match e ws json)
  unfolding on_resume_match
  on_resume_match-Steady ws json = search steady_rules depth 8

  dispatch-Steady :
      (ws : ℕ) (d : PerSocketData) (o : Option e.Json) → Steady {e = e} (dispatch e ws d o)
  unfolding dispatch
  dispatch-Steady ws d none = search steady_rules
  dispatch-Steady ws d (some json) =
      search (steady_rules, on_join_match-Steady, on_resume_match-Steady) depth 10

  count-Steady : (ws now : ℕ) → Steady {e = e} (set_user_data ws (count_message now))
  count-Steady ws now = set_user_data-Steady ws (count_message now) (count_message_id now)

  pub on_message-Steady : (ws : ℕ) (msg : String) (now : ℕ) → Steady {e = e} (on_message ws msg now)
  unfolding on_message
  on_message-Steady ws msg now = search (steady_rules, count-Steady, dispatch-Steady) depth 10

  pub on_open-Steady : Steady {e = e} on_open
  on_open-Steady = record { at = λ s h. on_open-IsConsistent s h }

  same_key :
      (id : String) (white : Bool) (ws : Option ℕ) (x : MatchRoom e)
      → is_room id (set_slot white ws x) ≡ is_room id x
  same_key id true ws x = refl
  same_key id false ws x = refl

  set_slot-Has :
      (id : String) (white : Bool) (ws : Option ℕ)
      → Leads {e = e} (Has id) (Has id) (update_room id (set_slot white ws))
  set_slot-Has id white ws = record {
    at = λ s h.
        Has-update_room id (set_slot white ws) s (same_key id white ws)
          (set_slot-IsConsistent s h.0 id white ws) h.1;
  }

  leave-Leads :
      (d : PerSocketData) (room : MatchRoom e)
      → Leads {e = e} (Has d.game_id) IsConsistent (leave_room d (some room))
  unfolding leave_room
  leave-Leads d room = search (has_rules, set_slot-Has) depth 8

  leave_room-IsConsistent :
      (d : PerSocketData) (o : Option (MatchRoom e)) (s : Server e)
      → IsConsistent s
      → find_room d.game_id s.rooms ≡ o
      → IsConsistent (leave_room d o s).1
  unfolding leave_room
  leave_room-IsConsistent d none s h found = h
  leave_room-IsConsistent d (some room) s h found =
      (leave-Leads d room).at s (h, find_first-exists (is_room d.game_id) s.rooms room found)

  -- a socket that is open leaves
  leave-IsConsistent :
      (ws : ℕ) (d : PerSocketData) (s : Server e)
      → IsConsistent s
      → exists (is_socket ws) s.sockets ≡ true
      → let t = (remove_socket ws s).1 in
        IsConsistent (leave_room d (find_room d.game_id t.rooms) t).1
  leave-IsConsistent ws d s h there =
      leave_room-IsConsistent d _ (remove_socket ws s).1 (remove_socket-IsConsistent s h ws there)
        refl

  pub on_close-Steady : (ws : ℕ) → Steady {e = e} (on_close ws)
  unfolding on_close remove_socket
  on_close-Steady ws = record {
    at = λ s h. elim (get_user_data-cases ws s) [
      | inl (_, g) ↦ rw (g, ◌>>=◌) (rw g h)
      | inr (d, e, g) ↦
          rw (g, ◌>>=◌)
            (rw (g, ◌>>◌)
              (leave-IsConsistent ws d s h (find_first-exists (is_socket ws) s.sockets d e)))
    ];
  }

  reject-Steady : (ws : ℕ) (reason text : String) → Steady {e = e} (reject ws reason text)
  reject-Steady ws reason text = search (Leads-bind, reply-Steady, on_close-Steady)

  take_seat-Steady :
      (ws : ℕ) (match_id user_id color : String)
      → Steady {e = e} (take_seat ws match_id user_id color)
  unfolding take_seat
  take_seat-Steady ws match_id user_id color =
      Leads-bind _ _ (set_user_data-Steady ws _ (λ d. refl)) same
        (λ _. set_slot-Steady match_id (is_white color) (some ws))

  retake_seat-Steady : (ws : ℕ) (r : ResolveResult) → Steady {e = e} (retake_seat ws r)
  unfolding retake_seat
  retake_seat-Steady ws r =
      Leads-bind _ _ (set_user_data-Steady ws _ (λ d. refl)) same
        (λ _. set_slot-Steady r.match_id (is_white r.color) (some ws))

  join_open-Steady :
      (ws : ℕ) (color : String) (v : VerifyResult) (token : String)
      → Steady {e = e} (join_open ws color v token)
  unfolding join_open
  join_open-Steady ws color v token =
      search (steady_rules, reject-Steady, take_seat-Steady) depth 12

  resume_in_room-Steady :
      (ws : ℕ) (r : ResolveResult) (token : String) (o : Option (MatchRoom e))
      → Steady {e = e} (resume_in_room ws r token o)
  unfolding resume_in_room
  resume_in_room-Steady ws r token none = reject-Steady ws _ _
  resume_in_room-Steady ws r token (some room) = search (steady_rules, retake_seat-Steady) depth 12

  resume_open-Steady :
      (ws : ℕ) (r : ResolveResult) (token : String) → Steady {e = e} (resume_open ws r token)
  unfolding resume_open
  resume_open-Steady ws r token =
      search (steady_rules, reject-Steady, resume_in_room-Steady) depth 12

  pub run_deferred-Steady : (d : Deferred) → Steady {e = e} (run_deferred d)
  unfolding run_deferred
  run_deferred-Steady (join_verified ws color v token) = search (steady_rules, join_open-Steady)
  run_deferred-Steady (resume_resolved ws r token) = search (steady_rules, resume_open-Steady)
