-- ===== src/RedisClient.antt =====
-- services/api/utils/redis_client.py: the one client that all requests share.
pub mod Client
pub mod Keeps
use secure_chess.Prelude.{
  String, Bool, true, false, Option, none, some, not, is_empty, if◌then◌else◌,
}
use secure_chess.Exec.{
  Exec, ok, err, Error, value_error, redis_error, pure, raise, raise_if, gets, modify, ◌>>=◌, ◌>>◌,
}
use secure_chess.Platform.{Platform, World}
use secure_chess.Platform.Calls.{Act, redis_call}

-- `not redis_url`
abbrev pub is_missing : Option String → Bool
is_missing none = true
is_missing (some url) = is_empty url

-- the address that is there
abbrev pub url_of : Option String → String
url_of none = ""
url_of (some url) = url

module _ {p : Platform} where
  abbrev pub set_client : Bool → Act p Unit
  set_client b = modify (λ w. record w { has_client = b })

  -- `Redis.from_url` raises for a bad address, before the global is set; if it returns, it is a client,
  -- never `None`. The global is set before the ping, whose failure is raised to the caller.
  unfoldable pub get_redis_client : Act p Unit
  unfolding redis_call
  get_redis_client = do
    connected ← gets (λ w. w.has_client)
    if connected then pure tt else do
      raise_if (is_missing p.redis_url) (value_error "redis_url is not found")
      raise_if (not (p.is_redis_address (url_of p.redis_url))) (value_error "Redis URL")
      set_client true
      redis_call p p.redis.ping

  unfoldable pub close_redis_connection : Act p Unit
  close_redis_connection = do
    connected ← gets (λ w. w.has_client)
    if connected
        then (do redis_call p p.redis.aclose; set_client false)
        else raise (value_error "Redis client is not initialized")
