-- ===== src/RateLimit/Wrapper.antt =====
-- The wrapper that `rate_limit` puts around a handler.
use secure_chess.Prelude.{
  ℕ, suc, ◌-◌, ◌≤◌, ◌≡◌, String, true, Option, none, some, ltb, ◌==◌, if◌then◌else◌, arith,
}
use secure_chess.Exec.{ok, err, too_many_requests}
use secure_chess.Platform.{Platform, World}
use secure_chess.Platform.Calls.{Act, timestamp, utc_now}
use secure_chess.Platform.CallLaws.{redis_call-none}
use secure_chess.RedisClient.Client.{get_redis_client-connected}
use secure_chess.UserHelpers.{Request}
use secure_chess.RateLimit.{find_identifier, check_rate_limit, rate_limit, rate_key, reset_time}
use secure_chess.RateLimit.Laws.{CounterLaws, counted, ttl_after}
use secure_chess.RateLimit.Check.{check_rate_limit-up}

module _ {p : Platform} {A : Type 0} (max window : ℕ)
    (identifier_type key_prefix identifier : String) (request : Request) (body : Option String)
    (func : Request → Act p A) (w : World p)
    (found : find_identifier identifier_type request body w ≡ (ok identifier, w))
    (connected : w.has_client ≡ true) where
  -- While Redis is up, the wrapper counts the request at the key of its prefix and identifier.
  -- If that makes more than `max_requests`, it answers 429, with the limit and the reset time, and
  -- the handler is not run; else it runs the handler and returns what that returns.
  pub rate_limit-up :
      (l : CounterLaws p.redis)
      → l.up w.redis ≡ true
      → 1 ≤ window
      → let key = rate_key key_prefix identifier in
        let n = suc (l.count w.redis key) in
        let ttl = ttl_after window (n == 1) (l.remaining w.redis key) in
        let now = timestamp w.clock in
        let reset = reset_time now ttl window in
        let w' : World p = record w { redis = counted p.redis key window (n == 1) w.redis } in
        rate_limit max window identifier_type key_prefix (some request) body func w ≡ (
          if ltb max n
          then (err (too_many_requests max reset (reset - now)), w')
          else func request w')
  unfolding rate_limit utc_now
  rate_limit-up l u h =
      let key = rate_key key_prefix identifier in
      let a = get_redis_client-connected w connected in
      let c = check_rate_limit-up l key max window w u h in ground arith

  -- The limiter fails open: where INCR raises, the handler runs, however many requests came before.
  pub rate_limit_fails_open :
      let (reply, store) = p.redis.incr (rate_key key_prefix identifier) w.redis in
      reply ≡ none
      → rate_limit max window identifier_type key_prefix (some request) body func w
        ≡ func request (record w { redis = store })
  unfolding rate_limit utc_now check_rate_limit
  rate_limit_fails_open e =
      let a = get_redis_client-connected w connected in
      let c = redis_call-none p (p.redis.incr (rate_key key_prefix identifier)) w e in ground arith
