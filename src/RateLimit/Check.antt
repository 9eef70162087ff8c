-- ===== src/RateLimit/Check.antt =====
-- `check_rate_limit` of services/api/middleware/rate_limit.py.
use secure_chess.Prelude.{
  ℕ, suc, ◌-◌, ◌≤◌, ◌≡◌, String, true, false, ◌==◌, Bool-cases, inl, inr, arith,
}
use secure_chess.Exec.{ok, is_ok}
use secure_chess.Platform.{Platform, World}
use secure_chess.Platform.Calls.{timestamp, utc_now, redis_call}
use secure_chess.Platform.CallLaws.{redis_call-some}
use secure_chess.RateLimit.{check_rate_limit, reset_time}
use secure_chess.RateLimit.Laws.{CounterLaws, counted, ttl_after, counted-remaining}

module _ {p : Platform} where
  -- Whatever Redis replies, `check_rate_limit` returns: it raises nothing, and changes nothing but
  -- the Redis store.
  pub check_rate_limit_total :
      (key : String) (max_requests window_seconds : ℕ) (w : World p)
      → let (r, v) = check_rate_limit key max_requests window_seconds w in
        (is_ok r ≡ true) × (v ≡ record w { redis = v.redis })
  unfolding check_rate_limit utc_now redis_call
  check_rate_limit_total key max_requests window_seconds w = (ground arith, ground arith)

  -- While Redis is up, the count is that of the key with this request, and the store has counted
  -- it: with an expiration if the request is the first.
  pub check_rate_limit-up :
      (l : CounterLaws p.redis) (key : String) (max_requests window_seconds : ℕ) (w : World p)
      → l.up w.redis ≡ true
      → 1 ≤ window_seconds
      → let n = suc (l.count w.redis key) in
        let first = n == 1 in
        check_rate_limit key max_requests window_seconds w ≡ (
          ok (
            n,
            max_requests - n,
            reset_time
                (timestamp w.clock)
                (ttl_after window_seconds first (l.remaining w.redis key))
                window_seconds,
          ),
          record w { redis = counted p.redis key window_seconds first w.redis },
        )
  unfolding check_rate_limit utc_now
  check_rate_limit-up l key max_requests window w u h =
      let n = suc (l.count w.redis key) in
      let s1 = (p.redis.incr key w.redis).1 in
      let w1 : World p = record w { redis = s1 } in
      let u1 = l.incr-up key w.redis u in
      let a = redis_call-some p (p.redis.incr key) w (l.incr-reply key w.redis u) in
      elim (Bool-cases (n == 1)) [
        | inl first ↦
            let b = l.expire-reply key window s1 u1 in
            let s2 = (p.redis.expire key window s1).1 in
            let w2 : World p = record w { redis = s2 } in
            let u2 = l.expire-up key window s1 u1 in
            let c = redis_call-some p (p.redis.expire key window) w1 b.1 in
            let d = redis_call-some p (p.redis.ttl key) w2 (l.ttl-reply key s2 u2) in
            let m = counted-remaining l key window true w.redis u h in
            let z = l.ttl_same key s2 u2 in ground arith
        | inr later ↦
            let c = redis_call-some p (p.redis.ttl key) w1 (l.ttl-reply key s1 u1) in
            let m = counted-remaining l key window false w.redis u h in
            let z = l.ttl_same key s1 u1 in ground arith
      ]
