-- ===== src/Servicer/Resume.antt =====
-- `CreateResumeToken` and `ResolveResumeToken` of services/api/rpc/servicer.py.
use Prim.Native.String as S
use secure_chess.Prelude.{
  suc, ◌≡◌, refl, String, ◌++◌, true, false, none, [], ◌∷◌, has_char, split, split-append,
  split_plain, split_two, is_empty-append, eq_refl, arith,
}
use secure_chess.Exec.{ok, err, value_error}
use secure_chess.Platform.{Platform, World}
use secure_chess.Platform.TextLaws.{TextLaws}
use secure_chess.Platform.Calls.{token_urlsafe}
use secure_chess.Platform.CallLaws.{redis_call-some}
use secure_chess.RedisClient.Client.{get_redis_client-connected}
use secure_chess.Servicer.{
  ResumeTokenRequest, ResolveTokenResponse, invalid_token, resume_value, resume_key,
  resume_token_ttl, create_resume_token, resolve_resume_token, resolve_value, unpack,
}

-- no part of the value has a colon
abbrev pub HasNoColon : ResumeTokenRequest → Type 0
HasNoColon r =
    (has_char b':' r.match_id ≡ false)
    × (has_char b':' r.user_id ≡ false)
    × (has_char b':' r.color ≡ false)

pub split-resume_value :
    (r : ResumeTokenRequest)
    → HasNoColon r
    → split b':' (resume_value r) ≡ r.match_id ∷ r.user_id ∷ r.color ∷ []
split-resume_value r (a, b, c) =
    rw
      (
        split-append b':' ":" refl r.match_id (r.user_id ++ S.◌∷◌ ":" r.color) a,
        split-append b':' ":" refl r.user_id r.color b,
        split_plain b':' r.color c,
      )
      refl

module _ {p : Platform} (l : TextLaws p.redis) where
  -- `create_resume_token` returns the drawn token, under which Redis then has the value of the
  -- request; nothing else changes but the draw and the store.
  pub created :
      (r : ResumeTokenRequest) (w : World p)
      → w.has_client ≡ true
      → l.up w.redis ≡ true
      → let token = p.random_token w.draws in
        create_resume_token r w ≡ (
          ok token,
          record w {
            draws = suc w.draws;
            redis = (p.redis.set (resume_key token) (resume_value r) resume_token_ttl w.redis).1;
          },
        )
  unfolding create_resume_token token_urlsafe
  created r w connected up =
      let token = p.random_token w.draws in
      let w1 : World p = record w { draws = suc w.draws } in
      let a = get_redis_client-connected w1 connected in
      let b =
        redis_call-some p (p.redis.set (resume_key token) (resume_value r) resume_token_ttl) w1
          (l.set-reply (resume_key token) (resume_value r) resume_token_ttl w.redis up) in
      ground arith

  pub resolved :
      (token : String) (w : World p)
      → w.has_client ≡ true
      → l.up w.redis ≡ true
      → resolve_resume_token token w
        ≡ resolve_value
            (l.text_at w.redis (resume_key token))
            (record w { redis = (p.redis.getdel (resume_key token) w.redis).1 })
  unfolding resolve_resume_token
  resolved token w connected up =
      let a = get_redis_client-connected w connected in
      let b =
        redis_call-some p (p.redis.getdel (resume_key token)) w
          (l.getdel-reply (resume_key token) w.redis up) in
      ground arith

  -- While Redis is up, a resume token for parts without colons is good once: at the next call its
  -- match, player and colour come back as they were given, and at the call after that the answer
  -- is `valid=False`.
  pub resume_token_once :
      (r : ResumeTokenRequest) (w : World p)
      → w.has_client ≡ true
      → l.up w.redis ≡ true
      → HasNoColon r
      → let (token, v) = create_resume_token r w in
        let reply : ResolveTokenResponse = record {
          valid = true;
          match_id = r.match_id;
          user_id = r.user_id;
          color = r.color;
        } in
        (token ≡ ok (p.random_token w.draws))
        × ((resolve_resume_token (p.random_token w.draws) v).0 ≡ ok reply)
        × ((resolve_resume_token
              (p.random_token w.draws)
              (resolve_resume_token (p.random_token w.draws) v).1).0
            ≡ ok invalid_token)
  unfolding unpack
  resume_token_once r w connected up plain =
      let token = p.random_token w.draws in
      let key = resume_key token in
      let made = created r w connected up in
      let s1 = (p.redis.set key (resume_value r) resume_token_ttl w.redis).1 in
      let up1 = l.set-up key (resume_value r) resume_token_ttl w.redis up in
      let t1 = l.set-text key (resume_value r) resume_token_ttl w.redis key up in
      let w1 : World p = record w { draws = suc w.draws; redis = s1 } in
      let first = resolved token w1 connected up1 in
      let s2 = (p.redis.getdel key s1).1 in
      let up2 = l.getdel-up key s1 up1 in
      let t2 = l.getdel-text key s1 key up1 in
      let w2 : World p = record w1 { redis = s2 } in
      let second = resolved token w2 connected up2 in
      let parts = split-resume_value r plain in
      let some_text = is_empty-append r.match_id (r.user_id ++ S.◌∷◌ ":" r.color) ":" in
      (rw made refl, rw made (ground (arith, eq_refl key)), rw made (ground (arith, eq_refl key)))

  -- A colour with a colon (it comes from the client) makes the token useless: the call that should
  -- resume raises ValueError, and the token is used up.
  pub resume_token_colon :
      (r : ResumeTokenRequest) (w : World p)
      → w.has_client ≡ true
      → l.up w.redis ≡ true
      → has_char b':' r.match_id ≡ false
      → has_char b':' r.user_id ≡ false
      → has_char b':' r.color ≡ true
      → let token = p.random_token w.draws in
        let v = (create_resume_token r w).1 in
        let (reply, u) = resolve_resume_token token v in
        (reply ≡ err (value_error "unpack")) × (l.text_at u.redis (resume_key token) ≡ none)
  unfolding unpack
  resume_token_colon r w connected up a b c =
      let token = p.random_token w.draws in
      let key = resume_key token in
      let made = created r w connected up in
      let s1 = (p.redis.set key (resume_value r) resume_token_ttl w.redis).1 in
      let up1 = l.set-up key (resume_value r) resume_token_ttl w.redis up in
      let t1 = l.set-text key (resume_value r) resume_token_ttl w.redis key up in
      let w1 : World p = record w { draws = suc w.draws; redis = s1 } in
      let first = resolved token w1 connected up1 in
      let t2 = l.getdel-text key s1 key up1 in
      let some_text = is_empty-append r.match_id (r.user_id ++ S.◌∷◌ ":" r.color) ":" in
      let (x, y, more, e) = split_two b':' r.color c in
      let e1 = split-append b':' ":" refl r.match_id (r.user_id ++ S.◌∷◌ ":" r.color) a in
      let e2 = split-append b':' ":" refl r.user_id r.color b in
      rw made (ground (arith, eq_refl key), ground (arith, eq_refl key))
