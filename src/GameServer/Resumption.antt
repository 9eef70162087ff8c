-- ===== src/GameServer/Resumption.antt =====
-- `resume_match` from end to end: services/gameserver/src/server.cpp and grpc_client.cpp beside
-- services/api/rpc/servicer.py.
use Prim.Native.String as S
use secure_chess.Prelude.{
  ℕ, suc, String, ◌++◌, ◌≡◌, refl, ◌∙◌, Bool, true, false, Option, some, none, List, add_row,
  find_first, find_first-exists, update_where, exists-update_where, find_first-update_where,
  is_empty-append, eq_refl, arith,
}
use secure_chess.Exec.{ok}
use secure_chess.Platform.{Platform, World}
use secure_chess.Platform.TextLaws.{TextLaws}
use secure_chess.Servicer.{
  ResumeTokenRequest, resume_key, resume_value, resume_token_ttl, unpack, resolve_resume_token,
}
use secure_chess.Servicer.Resume.{HasNoColon, split-resume_value, created, resolved}
use secure_chess.GameServer.{
  Engine, Server, PerSocketData, Message, MatchRoom, ResolveResult, resume_job, resume_resolved,
  resumed, opponent_reconnected, is_socket, is_open, is_room, find_room, set_slot, update_room,
  set_user_data,
}
use secure_chess.GameServer.Handlers.{
  is_white, take_seat, retake_seat, resume_in_room, resume_open, run_deferred,
}
use secure_chess.GameServer.Sends.{IsOpenSlot, tell_room, send-open, broadcast_to_room-open}
use secure_chess.GameServer.GrpcClient.{delivered, remote, client_create, client_resolve, run_job}

abbrev pub resolve_result : ResumeTokenRequest → ResolveResult
resolve_result r = record {
  valid = true;
  match_id = r.match_id;
  user_id = r.user_id;
  color = r.color;
}

module _ {p : Platform} (l : TextLaws p.redis) where
  -- the world once a token is made, and once it is given back
  abbrev made : ResumeTokenRequest → World p → World p
  made r w = record w {
    draws = suc w.draws;
    redis =
        (p.redis.set (resume_key (p.random_token w.draws)) (resume_value r) resume_token_ttl
          w.redis).1;
  }

  abbrev taken : String → World p → World p
  taken token w = record w { redis = (p.redis.getdel (resume_key token) w.redis).1 }

  module _ (r : ResumeTokenRequest) (w : World p) (connected : w.has_client ≡ true)
      (up : l.up w.redis ≡ true) where
    resolve-made :
        HasNoColon r
        → resolve_resume_token (p.random_token w.draws) (made r w) ≡ (
          ok (record { valid = true; match_id = r.match_id; user_id = r.user_id; color = r.color }),
          taken (p.random_token w.draws) (made r w),
        )
    unfolding unpack
    resolve-made plain =
        let key = resume_key (p.random_token w.draws) in
        let t1 = l.set-text key (resume_value r) resume_token_ttl w.redis key up in
        let first =
          resolved l (p.random_token w.draws) (made r w) connected
            (l.set-up key (resume_value r) resume_token_ttl w.redis up) in
        let parts = split-resume_value r plain in
        let some_text = is_empty-append r.match_id (r.user_id ++ S.◌∷◌ ":" r.color) ":" in
        ground (arith, eq_refl key)

    client_create-made :
        client_create delivered r.match_id r.user_id r.color w
        ≡ (ok (p.random_token w.draws), made r w)
    unfolding client_create remote
    client_create-made = let a = created l r w connected up in ground arith

    client_resolve-made :
        HasNoColon r
        → client_resolve delivered (p.random_token w.draws) (made r w)
          ≡ (ok (resolve_result r), taken (p.random_token w.draws) (made r w))
    unfolding client_resolve remote
    client_resolve-made plain = let a = resolve-made plain in ground arith

  job-made :
      (id : ℕ) (r : ResumeTokenRequest) (w : World p)
      → w.has_client ≡ true
      → l.up w.redis ≡ true
      → HasNoColon r
      → (run_job delivered delivered (resume_job id (p.random_token w.draws)) (made r w)).0
        ≡ ok (some (resume_resolved id (resolve_result r) (p.random_token (suc w.draws))))
  unfolding run_job
  job-made id r w connected up plain =
      let key = resume_key (p.random_token w.draws) in
      let up2 =
        l.getdel-up key (made r w).redis
          (l.set-up key (resume_value r) resume_token_ttl w.redis up) in
      let a = client_resolve-made r w connected up plain in
      let b = client_create-made r (taken (p.random_token w.draws) (made r w)) connected up2 in
      ground arith

abbrev pub resumed_data : ResolveResult → PerSocketData → PerSocketData
resumed_data r d = record d { game_id = r.match_id; user_id = r.user_id; color = r.color }

module _ {e : Engine} where
  set_slot-room :
      (white : Bool) (slot : Option ℕ) (id : String) (x : MatchRoom e)
      → is_room id (set_slot white slot x) ≡ is_room id x
  set_slot-room true slot id x = refl
  set_slot-room false slot id x = refl

  abbrev pub resumed_room : ℕ → ResolveResult → MatchRoom e → MatchRoom e
  resumed_room id r room = set_slot (is_white r.color) (some id) room

  abbrev pub seated : ℕ → ResolveResult → Server e → Server e
  seated id r s = record s {
    sockets = update_where (is_socket id) (resumed_data r) s.sockets;
    rooms = update_where (is_room r.match_id) (set_slot (is_white r.color) (some id)) s.rooms;
  }

  pub take_seat-seated :
      (id : ℕ) (r : ResolveResult) (s : Server e)
      → take_seat id r.match_id r.user_id r.color s ≡ (ok tt, seated id r s)
  unfolding take_seat set_user_data update_room
  take_seat-seated id r s = refl

  pub retake_seat-seated :
      (id : ℕ) (r : ResolveResult) (s : Server e) → retake_seat id r s ≡ (ok tt, seated id r s)
  unfolding retake_seat set_user_data update_room
  retake_seat-seated id r s = refl

  module _ (id : ℕ) (r : ResolveResult) (token : String) (room : MatchRoom e) (d : PerSocketData)
      (s : Server e) (found : find_first (is_socket id) s.sockets ≡ some d)
      (live : find_room r.match_id s.rooms ≡ some room) where
    pub seated-room : find_room r.match_id (seated id r s).rooms ≡ some (resumed_room id r room)
    seated-room =
        find_first-update_where (is_room r.match_id) (set_slot (is_white r.color) (some id))
          (set_slot-room (is_white r.color) (some id) r.match_id) s.rooms room live

    pub seated-open : (k : ℕ) → is_open k (seated id r s).sockets ≡ is_open k s.sockets
    seated-open k =
        exists-update_where (is_socket k) (is_socket id) (resumed_data r) (λ x. refl) s.sockets

    seated-slot :
        (slot : Option ℕ) → IsOpenSlot s.sockets slot → IsOpenSlot (seated id r s).sockets slot
    seated-slot none h = tt
    seated-slot (some k) h = seated-open k ∙ h

    abbrev sent_after : List (ℕ × Message)
    sent_after =
        tell_room (resumed_room id r room) opponent_reconnected
          (add_row s.sent (id, resumed r.color (e.get_fen room.board) room.move_history token))

    pub run-resumed :
        r.valid ≡ true
        → IsOpenSlot s.sockets (resumed_room id r room).white
        → IsOpenSlot s.sockets (resumed_room id r room).black
        → run_deferred (resume_resolved id r token) s
          ≡ (ok tt, record (seated id r s) { sent = sent_after })
    unfolding run_deferred resume_open resume_in_room
    run-resumed valid h k =
        let there = find_first-exists (is_socket id) s.sockets d found in
        let a = retake_seat-seated id r s in
        let b = seated-room in
        let c =
          send-open id
            (resumed r.color (e.get_fen (resumed_room id r room).board)
              (resumed_room id r room).move_history token)
            (seated id r s) (seated-open id ∙ there) in
        let t : Server e = record (seated id r s) {
          sent = add_row s.sent (
            id,
            resumed r.color (e.get_fen (resumed_room id r room).board)
                (resumed_room id r room).move_history token,
          );
        } in
        let f =
          broadcast_to_room-open (resumed_room id r room) opponent_reconnected t (seated-slot _ h)
            (seated-slot _ k) in
        ground arith

-- A player resumes the game. While Redis is up, the game server makes a resume token for parts
-- without colons; a socket that is open then gives the token back, a worker runs its job with the
-- network up, and the room of the game is there, with the other slot empty or open. Then the
-- deferred function returns, and the socket has the match, the player and the colour of the token,
-- and stands in its slot of the room, whose board and moves are as they were; it is sent the
-- colour, the board, all the moves and a new token, and both sockets of the room are told of the
-- reconnection.
pub resume_match_lem :
    {e : Engine} {p : Platform} (l : TextLaws p.redis) (id : ℕ) (r : ResumeTokenRequest)
    (w : World p) (room : MatchRoom e) (d : PerSocketData) (s : Server e)
    → w.has_client ≡ true
    → l.up w.redis ≡ true
    → HasNoColon r
    → find_first (is_socket id) s.sockets ≡ some d
    → find_room r.match_id s.rooms ≡ some room
    → IsOpenSlot s.sockets (resumed_room id (resolve_result r) room).white
    → IsOpenSlot s.sockets (resumed_room id (resolve_result r) room).black
    → let (token, v) = client_create delivered r.match_id r.user_id r.color w in
      let token' = p.random_token (suc w.draws) in
      let resume = resume_resolved id (resolve_result r) token' in
      let room' = resumed_room id (resolve_result r) room in
      let (result, t) = run_deferred resume s in
      (token ≡ ok (p.random_token w.draws))
      × ((run_job delivered delivered (resume_job id (p.random_token w.draws)) v).0
          ≡ ok (some resume))
      × (result ≡ ok tt)
      × (find_first (is_socket id) t.sockets ≡ some (resumed_data (resolve_result r) d))
      × (find_room r.match_id t.rooms ≡ some room')
      × (t.sent
          ≡ tell_room room' opponent_reconnected (
              add_row s.sent (id, resumed r.color (e.get_fen room.board) room.move_history token')))
resume_match_lem {e} {p} l id r w room d s connected up plain found live h k =
    let made_token = client_create-made l r w connected up in
    let resolved_job = job-made l id r w connected up plain in
    let x = resolve_result r in
    let run = run-resumed id x (p.random_token (suc w.draws)) room d s found live refl h k in
    (
      rw made_token refl,
      rw made_token resolved_job,
      rw run refl,
      rw run
          (find_first-update_where (is_socket id) (resumed_data x) (λ y. refl) s.sockets d found),
      rw run (seated-room id x (p.random_token (suc w.draws)) room d s found live),
      rw run refl,
    )
