-- ===== src/Tests/Limits.antt =====
-- The theorems on the rate limiter, at a route with two requests in a minute.
use Prim.Native.Nat.{min}
use secure_chess.Prelude.{
  suc, ◌-◌, ◌≤◌, ◌≡◌, refl, String, true, false, some, none, [], ◌∷◌, ltb, ◌==◌, if◌then◌else◌,
  arith,
}
use secure_chess.Exec.{ok, err, is_ok, too_many_requests, pure}
use secure_chess.Platform.{World}
use secure_chess.Platform.Redis.{no_expiry}
use secure_chess.Platform.Calls.{Act}
use secure_chess.UserHelpers.{Request}
use secure_chess.RateLimit.{check_rate_limit, rate_limit, rate_key, reset_time, find_identifier}
use secure_chess.RateLimit.Laws.{counted, ttl_after}
use secure_chess.RateLimit.Check.{check_rate_limit_total}
use secure_chess.RateLimit.Wrapper.{rate_limit-up, rate_limit_fails_open}
use secure_chess.RateLimit.Window.{
  admitted, admitted_after, LeavesCount, rate_limit_quota, rate_limit_lockout,
}
use secure_chess.Sample.Store.{keys_api, counter}
use secure_chess.Sample.Counters.{counter_laws}
use secure_chess.Sample.Values.{sample, start}
use secure_chess.Tests.Scene.{request}

abbrev hello : Request → Act sample String
hello r = pure "hello"

abbrev hello_key : String
hello_key = rate_key "hello" "192.0.2.7"

hello-LeavesCount : LeavesCount sample counter_laws hello_key hello
hello-LeavesCount = record {
  ends_well = λ r w. refl;
  ready = λ r w h. h;
  same_count = λ r w h. refl;
}

rate_limit_quota_example :
    admitted 3 (rate_limit {p = sample} 2 60 "ip" "hello" (some request) none hello) start
    ≡ min 3 (2 - counter_laws.count start.redis hello_key)
unfolding counter_laws secure_chess.RateLimit.get_client_ip
rate_limit_quota_example =
    rate_limit_quota counter_laws 2 60 "hello" request none hello (omega arith) 3 start refl refl
      hello-LeavesCount

-- the second request was counted, but the key never got an expiration
abbrev stuck : World sample
stuck = record start {
  redis = record { up = true; entries = ("rate_limit:hello:192.0.2.7", (counter 2, none)) ∷ [] };
}

used_up : 2 ≤ counter_laws.count stuck.redis hello_key
unfolding secure_chess.Sample.Store.find counter_laws
used_up = omega arith

no_end : counter_laws.remaining stuck.redis hello_key ≡ no_expiry
unfolding secure_chess.Sample.Store.find counter_laws
no_end = refl

rate_limit_lockout_example :
    admitted_after counter_laws 2 60 "hello" request none hello
      (omega arith)
      (0 ∷ 60 ∷ 86400 ∷ [])
      stuck
    ≡ 0
unfolding counter_laws secure_chess.RateLimit.get_client_ip
rate_limit_lockout_example =
    rate_limit_lockout counter_laws 2 60 "hello" request none hello (omega arith)
      (0 ∷ 60 ∷ 86400 ∷ []) stuck (omega arith) refl refl used_up no_end

identified : find_identifier {p = sample} "ip" request none start ≡ (ok "192.0.2.7", start)
unfolding find_identifier secure_chess.RateLimit.get_client_ip
identified = refl

rate_limit-up_example :
    let n = suc (counter_laws.count start.redis hello_key) in
    let ttl = ttl_after 60 (n == 1) (counter_laws.remaining start.redis hello_key) in
    let reset = reset_time 0 ttl 60 in
    let w' : World sample = record start {
      redis = counted keys_api hello_key 60 (n == 1) start.redis;
    } in
    rate_limit 2 60 "ip" "hello" (some request) none hello start
    ≡ (if ltb 2 n then (err (too_many_requests 2 reset (reset - 0)), w') else hello request w')
unfolding counter_laws
rate_limit-up_example =
    rate_limit-up 2 60 "ip" "hello" "192.0.2.7" request none hello start identified refl
      counter_laws refl (omega arith)

abbrev redis_down : World sample
redis_down = record start { redis = record { up = false; entries = [] } }

identified_down :
    find_identifier {p = sample} "ip" request none redis_down ≡ (ok "192.0.2.7", redis_down)
unfolding find_identifier secure_chess.RateLimit.get_client_ip
identified_down = refl

rate_limit_fails_open_example :
    rate_limit 2 60 "ip" "hello" (some request) none hello redis_down ≡ hello request redis_down
rate_limit_fails_open_example =
    rate_limit_fails_open 2 60 "ip" "hello" "192.0.2.7" request none hello redis_down
      identified_down refl refl

check_rate_limit_total_example :
    let (r, v) = check_rate_limit {p = sample} hello_key 2 60 redis_down in
    (is_ok r ≡ true) × (v ≡ record redis_down { redis = v.redis })
check_rate_limit_total_example = check_rate_limit_total {p = sample} hello_key 2 60 redis_down
