-- ===== src/GameServer/Quota.antt =====
-- The rate limit of a socket on services/gameserver/src/server.cpp.
use secure_chess.Prelude.{
  ℕ, suc, ◌+◌, ◌-◌, ◌*◌, ◌≤◌, String, ◌≡◌, refl, ◌∙◌, true, false, Option, none, some, List, [],
  ◌∷◌, All, find_first, ltb, Bool-cases, inl, inr, arith,
}
use secure_chess.Exec.{gets}
use secure_chess.GameServer.{
  Engine, Server, PerSocketData, MatchRoom, Live, is_socket, update_room, drop_room, reply_error,
}
use secure_chess.GameServer.Handlers.{
  max_message_bytes, rate_limit_max, rate_window_ms, count_message, finish_if_over, announce, play,
  play_if_legal, move_in_room, on_move, dispatch, on_message,
}
use secure_chess.GameServer.Quiet.{Quiet, quiet_rules, reply_error-Quiet}
use secure_chess.GameServer.Leads.{Leads, Leads-bind, Leads-if}
use secure_chess.GameServer.Messages.{
  counted, counted-found, on_message-large, on_message-limited, on_message-dispatched,
  on_join_match-Quiet, on_resume_match-Quiet,
}

-- the message comes at `a` or within a window after
abbrev pub IsWithin : ℕ → ℕ × String → Type 0
IsWithin a m = (a ≤ m.0) × (m.0 ≤ a + rate_window_ms)

module _ {e : Engine} where
  module _ (sockets : List PerSocketData) where
    abbrev Sockets : Server e → Type 0
    Sockets s = s.sockets ≡ sockets

    abbrev KeepsSockets : {A : Type 0} → Live e A → Type 0
    KeepsSockets m = Leads Sockets Sockets m

    Keeps-Quiet : {A : Type 0} (m : Live e A) → Quiet m → KeepsSockets m
    Keeps-Quiet m q = record { at = λ s h. (q.at s).1 ∙ h }

    Keeps-same : (s : Server e) → Sockets s → Sockets s
    Keeps-same s h = h

    Keeps-gets : {A : Type 0} (f : Server e → A) → KeepsSockets (gets f)
    Keeps-gets f = record { at = λ s h. h }

    Keeps-drop : (id : String) → KeepsSockets (drop_room id)
    unfolding drop_room
    Keeps-drop id = record { at = λ s h. h }

    Keeps-update : (id : String) (f : MatchRoom e → MatchRoom e) → KeepsSockets (update_room id f)
    unfolding update_room
    Keeps-update id f = record { at = λ s h. h }

    ruleset socket_rules = (
      Leads-bind, Leads-if, Keeps-Quiet, Keeps-same, Keeps-gets, Keeps-drop, Keeps-update,
      quiet_rules,
    )

    finish_if_over-Keeps :
        (id : String) (room : MatchRoom e) → KeepsSockets (finish_if_over id room)
    unfolding finish_if_over
    finish_if_over-Keeps id room = search socket_rules depth 14

    play-Keeps :
        (id : String) (room : MatchRoom e) (move : e.Move) (m : String)
        → KeepsSockets (play id room move m)
    unfolding play announce
    play-Keeps id room move m = search (socket_rules, finish_if_over-Keeps) depth 10

    move_in_room-Keeps :
        (ws : ℕ) (d : PerSocketData) (json : e.Json) (o : Option (MatchRoom e))
        → KeepsSockets (move_in_room e ws d json o)
    unfolding move_in_room play_if_legal
    move_in_room-Keeps ws d json none = search socket_rules
    move_in_room-Keeps ws d json (some room) = search (socket_rules, play-Keeps) depth 10

    dispatch-Keeps :
        (ws : ℕ) (d : PerSocketData) (o : Option e.Json) → KeepsSockets (dispatch e ws d o)
    unfolding dispatch on_move
    dispatch-Keeps ws d none = search socket_rules
    dispatch-Keeps ws d (some json) =
        search (socket_rules, on_join_match-Quiet, on_resume_match-Quiet, move_in_room-Keeps) depth
          10

  -- How many of the messages are dispatched, each with its time, when the socket sends them one after
  -- the other: the handler is `dispatch` on the counted server for these, and an error reply for the others.
  pub data Dispatches (ws : ℕ) : List (ℕ × String) → Server e → ℕ → Type 0 where
    no_more : {s : Server e} → Dispatches ws [] s 0
    dispatched :
        {now : ℕ} {msg : String} {rest : List (ℕ × String)} {s : Server e} {n : ℕ}
        → (d : PerSocketData)
        → on_message ws msg now s
          ≡ dispatch e ws (count_message now d) (e.parse msg) (counted ws now s)
        → Dispatches ws rest (on_message ws msg now s).1 n
        → Dispatches ws ((now, msg) ∷ rest) s (suc n)
    too_large :
        {now : ℕ} {msg : String} {rest : List (ℕ × String)} {s : Server e} {n : ℕ}
        → on_message ws msg now s ≡ reply_error ws "message_too_large" "message too large" s
        → Dispatches ws rest (on_message ws msg now s).1 n
        → Dispatches ws ((now, msg) ∷ rest) s n
    limited :
        {now : ℕ} {msg : String} {rest : List (ℕ × String)} {s : Server e} {n : ℕ}
        → on_message ws msg now s
          ≡ reply_error ws "rate_limit_exceeded" "rate limit exceeded" (counted ws now s)
        → Dispatches ws rest (on_message ws msg now s).1 n
        → Dispatches ws ((now, msg) ∷ rest) s n

  -- at most so many are dispatched
  abbrev pub DispatchesAtMost : ℕ → ℕ → List (ℕ × String) → Server e → Type 0
  DispatchesAtMost bound ws messages s = (n : ℕ) × Dispatches ws messages s n × (n ≤ bound)

  module _ (ws now : ℕ) (msg : String) (d : PerSocketData) (s : Server e)
      (found : find_first (is_socket ws) s.sockets ≡ some d) where
    large-found :
        ltb max_message_bytes (e.size msg) ≡ true
        → find_first (is_socket ws) (on_message ws msg now s).1.sockets ≡ some d
    large-found large =
        rw
          (
            on_message-large ws msg now d s found large,
            ((reply_error-Quiet ws "message_too_large" "message too large").at s).1,
          )
          found

    small-found :
        ltb max_message_bytes (e.size msg) ≡ false
        → find_first (is_socket ws) (on_message ws msg now s).1.sockets ≡ some (count_message now d)
    small-found small = elim (Bool-cases (ltb rate_limit_max (count_message now d).msg_count)) [
      | inl over ↦
          rw
            (
              on_message-limited ws msg now d s found small over,
              ((reply_error-Quiet ws "rate_limit_exceeded" "rate limit exceeded").at
                  (counted ws now s)).1,
            )
            (counted-found ws msg now d s found)
      | inr under ↦
          rw
            (
              on_message-dispatched ws msg now d s found small under,
              (dispatch-Keeps (counted ws now s).sockets ws (count_message now d) (e.parse msg)).at
                  (counted ws now s) refl,
            )
            (counted-found ws msg now d s found)
    ]

    -- the first message, and a bound for the others
    module _ (rest : List (ℕ × String)) (bound : ℕ) where
      large-AtMost :
          ltb max_message_bytes (e.size msg) ≡ true
          → DispatchesAtMost bound ws rest (on_message ws msg now s).1
          → DispatchesAtMost bound ws ((now, msg) ∷ rest) s
      large-AtMost large (n, others, le) =
          (n, too_large (on_message-large ws msg now d s found large) others, le)

      small-AtMost :
          (left : ℕ)
          → ltb max_message_bytes (e.size msg) ≡ false
          → (ltb rate_limit_max (count_message now d).msg_count ≡ true → left ≤ bound)
          → (ltb rate_limit_max (count_message now d).msg_count ≡ false → suc left ≤ bound)
          → DispatchesAtMost left ws rest (on_message ws msg now s).1
          → DispatchesAtMost bound ws ((now, msg) ∷ rest) s
      small-AtMost left small over_le under_le (n, others, le) =
          elim (Bool-cases (ltb rate_limit_max (count_message now d).msg_count)) [
            | inl over ↦
                let b = over_le over in
                (
                  n,
                  limited (on_message-limited ws msg now d s found small over) others,
                  omega (arith, le, b),
                )
            | inr under ↦
                let b = under_le under in
                (
                  suc n,
                  dispatched d (on_message-dispatched ws msg now d s found small under) others,
                  omega (arith, le, b),
                )
          ]

  module _ (ws a : ℕ) where
    -- in a window that has begun since `a`
    in_window-AtMost :
        (messages : List (ℕ × String)) (d : PerSocketData) (s : Server e)
        → find_first (is_socket ws) s.sockets ≡ some d
        → a ≤ d.window_start_ms
        → All (IsWithin a) messages
        → DispatchesAtMost (rate_limit_max - d.msg_count) ws messages s
    in_window-AtMost [] d s found begun within = (0, no_more, omega arith)
    in_window-AtMost ((now, msg) ∷ rest) d s found begun within =
        let t = (on_message ws msg now s).1 in
        elim (Bool-cases (ltb max_message_bytes (e.size msg))) [
          | inl large ↦
              large-AtMost ws now msg d s found rest _ large
                (in_window-AtMost rest d t (large-found ws now msg d s found large) begun within.1)
          | inr small ↦
              let same : ltb rate_window_ms (now - d.window_start_ms) ≡ false =
                ground (arith, within.0.0, within.0.1) in
              small-AtMost ws now msg d s found rest (rate_limit_max - d.msg_count)
                (rate_limit_max - (count_message now d).msg_count) small
                (λ over. ground (arith, over)) (λ under. ground (arith, under))
                (in_window-AtMost rest (count_message now d) t
                  (small-found ws now msg d s found small) (ground arith) within.1)
        ]

    ever-AtMost :
        (messages : List (ℕ × String)) (d : PerSocketData) (s : Server e)
        → find_first (is_socket ws) s.sockets ≡ some d
        → All (IsWithin a) messages
        → DispatchesAtMost ((rate_limit_max - d.msg_count) + rate_limit_max) ws messages s
    ever-AtMost [] d s found within = (0, no_more, omega arith)
    ever-AtMost ((now, msg) ∷ rest) d s found within =
        let t = (on_message ws msg now s).1 in
        let bound = (rate_limit_max - d.msg_count) + rate_limit_max in
        elim (Bool-cases (ltb max_message_bytes (e.size msg))) [
          | inl large ↦
              large-AtMost ws now msg d s found rest _ large
                (ever-AtMost rest d t (large-found ws now msg d s found large) within.1)
          | inr small ↦ elim (Bool-cases (ltb rate_window_ms (now - d.window_start_ms))) [
            | inl reset ↦
                small-AtMost ws now msg d s found rest bound
                  (rate_limit_max - (count_message now d).msg_count) small
                  (λ over. ground (arith, over)) (λ under. ground (arith, under))
                  (in_window-AtMost rest (count_message now d) t
                    (small-found ws now msg d s found small) (ground (arith, within.0.0)) within.1)
            | inr same ↦
                small-AtMost ws now msg d s found rest bound
                  ((rate_limit_max - (count_message now d).msg_count) + rate_limit_max) small
                  (λ over. ground (arith, over)) (λ under. ground (arith, under))
                  (ever-AtMost rest (count_message now d) t (small-found ws now msg d s found small)
                    within.1)
          ]
        ]

    -- Of the messages that an open socket sends within a second, whatever they are, at most twice
    -- the limit are dispatched: those of the window that is open and of one new window. For each of
    -- the others the handler is the error reply of the size limit or of the rate limit.
    pub dispatch-AtMost :
        (messages : List (ℕ × String)) (d : PerSocketData) (s : Server e)
        → find_first (is_socket ws) s.sockets ≡ some d
        → All (IsWithin a) messages
        → DispatchesAtMost (2 * rate_limit_max) ws messages s
    dispatch-AtMost messages d s found within =
        let (n, those, le) = ever-AtMost messages d s found within in (n, those, omega (arith, le))
