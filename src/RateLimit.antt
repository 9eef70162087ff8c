-- ===== src/RateLimit.antt =====
-- services/api/middleware/rate_limit.py
pub mod Laws
pub mod Check
pub mod Wrapper
pub mod Window
pub mod Keeps
pub mod Runs
use secure_chess.Prelude.{
  ℕ, ◌+◌, ◌-◌, String, ◌++◌, Bool, true, false, Option, none, some, is_empty, str_eq, strip,
  first_part, ltb, ◌==◌, if◌then◌else◌,
}
use secure_chess.Exec.{
  Exec, ok, err, Error, too_many_requests, value_error, key_error, pure, raise, raise_if, or_raise,
  try_with, ◌>>=◌, ◌>>◌,
}
use secure_chess.Platform.{Platform, World}
use secure_chess.Platform.Redis.{Ttl, no_key, no_expiry, seconds}
use secure_chess.Platform.Calls.{Act, timestamp, utc_now, redis_call}
use secure_chess.RedisClient.{get_redis_client}
use secure_chess.Jwt.{decode_token}
use secure_chess.UserHelpers.{Request}

-- `request.client.host`, or "unknown"
abbrev direct_host : Option String → String
direct_host none = "unknown"
direct_host (some host) = host

abbrev forwarded_or : Option String → String → String
forwarded_or none host = host
forwarded_or (some forwarded) host =
    if is_empty forwarded then host else strip (first_part b',' forwarded)

unfoldable pub get_client_ip : Request → String
get_client_ip request = forwarded_or request.forwarded_for (direct_host request.client_host)

-- `int(time.time()) + ttl if ttl > 0 else int(time.time()) + window_seconds`
abbrev pub reset_time : ℕ → Ttl → ℕ → ℕ
reset_time now (seconds ttl) window = if ltb 0 ttl then now + ttl else now + window
reset_time now _ window = now + window

abbrev pub rate_key : String → String → String
rate_key key_prefix identifier = "rate_limit:" ++ (key_prefix ++ (":" ++ identifier))

module _ {p : Platform} where
  -- `int(time.time())`
  abbrev pub now_seconds : Act p ℕ
  now_seconds = do now ← utc_now; pure (timestamp now)

  -- the expiration starts with the first request of a window
  abbrev pub set_expiry : Bool → String → ℕ → Act p Unit
  set_expiry false key window_seconds = pure tt
  set_expiry true key window_seconds = do redis_call p (p.redis.expire key window_seconds); pure tt

  -- the `try` of `check_rate_limit`
  unfoldable pub count_request : String → ℕ → ℕ → Act p (ℕ × ℕ × ℕ)
  count_request key max_requests window_seconds = do
    current ← redis_call p (p.redis.incr key)
    set_expiry (current == 1) key window_seconds
    ttl ← redis_call p (p.redis.ttl key)
    now ← now_seconds
    pure (current, max_requests - current, reset_time now ttl window_seconds)

  -- the count, the requests that remain and the time of the reset; fails open
  unfoldable pub check_rate_limit : String → ℕ → ℕ → Act p (ℕ × ℕ × ℕ)
  unfolding count_request
  check_rate_limit key max_requests window_seconds =
      try_with (count_request key max_requests window_seconds)
        λ _. do now ← now_seconds; pure (0, max_requests, now + window_seconds)

  -- the `sub` claim of the refresh token in the body, or the address if that raises
  unfoldable pub user_or_ip : Request → String → Act p String
  unfolding decode_token
  user_or_ip request refresh_token =
      try_with
        (do
          decoded_token ← decode_token refresh_token "refresh"
          or_raise decoded_token.sub (key_error "sub"))
        λ _. pure (get_client_ip request)

  -- `body` is the refresh token of the body, if there is a body
  unfoldable pub find_identifier : String → Request → Option String → Act p String
  unfolding user_or_ip
  find_identifier identifier_type request body =
      if str_eq identifier_type "ip"
      then pure (get_client_ip request)
      else if str_eq identifier_type "user_id"
      then (do
        refresh_token ← or_raise body (value_error "Body was not able to be found")
        user_or_ip request refresh_token)
      else raise (value_error "Unknown identifier_type")

  -- The wrapper around the handler `func`.
  unfoldable pub rate_limit :
      {A : Type 0}
      → ℕ
      → ℕ
      → String
      → String
      → Option Request
      → Option String
      → (Request → Act p A)
      → Act p A
  rate_limit max_requests window_seconds identifier_type key_prefix request body func = do
    request ← or_raise request (value_error "Request was not able to be grabbed")
    identifier ← find_identifier identifier_type request body
    get_redis_client
    (current, remaining_requests, reset) ←
        check_rate_limit (rate_key key_prefix identifier) max_requests window_seconds
    now ← now_seconds
    raise_if (ltb max_requests current) (too_many_requests max_requests reset (reset - now))
    func request
