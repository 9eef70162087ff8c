-- ===== src/Platform/Redis.antt =====
-- The Redis server behind `redis.asyncio`: an external service, so a parameter. A command takes
-- the store to a reply and the store after it; `none` is an exception of the client library.
use secure_chess.Prelude.{ℕ, String, Bool, Option, List}

-- the replies of TTL: -2, -1, and the seconds that are left
pub data Ttl : Type 0 where
  no_key no_expiry : Ttl
  seconds : ℕ → Ttl

pub record RedisApi : Type 1 where
  pub Store : Type 0
  -- the end of the client's connections
  pub aclose : Store → Option (Unit {0}) × Store
  pub ping : Store → Option (Unit {0}) × Store
  pub incr : String → Store → Option ℕ × Store
  pub expire : String → ℕ → Store → Option Bool × Store
  pub ttl : String → Store → Option Ttl × Store
  pub rpush : String → String → Store → Option ℕ × Store
  pub lpush : String → String → Store → Option ℕ × Store
  pub llen : String → Store → Option ℕ × Store
  -- LPOP key count: `none` inside if there is no such key
  pub lpop : String → ℕ → Store → Option (Option (List String)) × Store
  -- SET key value EX seconds
  pub set : String → String → ℕ → Store → Option (Unit {0}) × Store
  pub get : String → Store → Option (Option String) × Store
  pub delete : String → Store → Option ℕ × Store
  pub getdel : String → Store → Option (Option String) × Store
