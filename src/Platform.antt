-- ===== src/Platform.antt =====
-- What surrounds the services: the environment variables, the third-party packages and services
-- (parameters), and the state that the calls share.
pub mod Redis
pub mod Tables
pub mod Calls
pub mod CallLaws
pub mod TextLaws
pub mod ListLaws
pub mod Keeps
use secure_chess.Prelude.{ℕ, String, Bool, Option}
use Redis.{RedisApi}
use Tables.{Database}

-- The claims of a token, as `jwt.decode` returns them: `none` is a claim that is absent.
pub record Claims : Type 0 where
  pub jti : Option String
  pub sub : Option String
  pub match_id : Option String
  pub type : Option String
  pub iat : ℕ
  pub exp : ℕ

-- The `payload` that matchmaking/routes.py puts in a queue.
pub record QueueEntry : Type 0 where
  pub request_id : String
  pub user_id : String
  pub time_control : String
  pub increment : ℕ
  pub created_at : ℕ

-- The outcomes of `jwt.decode`: the payload, `ExpiredSignatureError`, any other
-- `InvalidTokenError`.
pub data Decoded : Type 0 where
  payload : Claims → Decoded
  expired invalid : Decoded

pub record Platform : Type 1 where
  -- environment variables
  pub jwt_secret : String
  pub jwt_algo : String
  pub jwt_mins : ℕ
  pub jwt_days : ℕ
  pub ws_base_url : String
  pub redis_url : Option String
  -- whether `Redis.from_url` takes the address: it raises ValueError for another scheme than its own
  pub is_redis_address : String → Bool
  -- PyJWT: `encode payload key algorithm`, `none` if it raises; `decode token key algorithm now`
  pub encode : Claims → String → String → Option String
  pub decode : String → String → String → ℕ → Decoded
  -- passlib's bcrypt context, `none` if it raises (as both do on a password with a NUL); the salt is
  -- drawn. `hashlib.sha256(s.encode()).hexdigest()`
  pub hash : String → ℕ → Option String
  pub verify : String → String → Option Bool
  pub sha256 : String → String
  -- the text of a UUID, and what PostgreSQL reads as one
  pub str_uuid : ℕ → String
  pub uuid_of : String → Option ℕ
  -- the n-th random UUID (of `uuid4` or `gen_random_uuid`), `secrets.token_urlsafe(32)`
  pub random_uuid : ℕ → ℕ
  pub random_token : ℕ → String
  -- `json.dumps` and `json.loads` on queue entries, `none` if `loads` raises
  pub dumps : QueueEntry → String
  pub loads : String → Option QueueEntry
  -- whether the n-th connection to PostgreSQL raises `psycopg.Error` of its own accord
  pub db_fault : ℕ → Bool
  pub redis : RedisApi

pub record World (p : Platform) : Type 0 where
  -- microseconds of UTC since 1970, for the services and the database alike
  pub clock : ℕ
  pub db : Database
  pub redis : p.redis.Store
  -- whether the global `_redis_client` is set
  pub has_client : Bool
  -- how much randomness was drawn, and how many connections were opened
  pub draws : ℕ
  pub connections : ℕ
