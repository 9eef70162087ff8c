-- ===== src/Platform/Calls.antt =====
-- The ways in which the services use what surrounds them: the clock, randomness, a transaction of
-- PostgreSQL, and the Redis client of utils/redis_client.py.
use secure_chess.Prelude.{ℕ, suc, ◌/◌, String, Option, none, some, if◌then◌else◌}
use secure_chess.Exec.{
  Exec, Result, ok, err, Error, redis_error, db_error, unique_violation, raise, gets,
}
use secure_chess.Platform.{Platform, World}
use secure_chess.Platform.Tables.{Database}

abbrev pub Act : Platform → Type 0 → Type 0
Act p A = Exec (World p) A

-- `int(x.timestamp())` for the time x, in microseconds
abbrev pub timestamp : ℕ → ℕ
timestamp t = t / 1000000

module _ {p : Platform} where
  -- `datetime.now(timezone.utc)`, and `NOW()` of the database
  unfoldable pub utc_now : Act p ℕ
  utc_now = gets (λ w. w.clock)

  -- `uuid.uuid4()`, and `gen_random_uuid()` of the database
  unfoldable pub uuid4 : Act p ℕ
  uuid4 w = (ok (p.random_uuid w.draws), record w { draws = suc w.draws })

  -- `secrets.token_urlsafe(32)`
  unfoldable pub token_urlsafe : Act p String
  token_urlsafe w = (ok (p.random_token w.draws), record w { draws = suc w.draws })

  -- `with psycopg.connect(DATABASE_URL) as conn: …` with the commit at its end: a raise inside
  -- rolls the tables back.
  unfoldable pub connect : {A : Type 0} → Act p A → Act p A
  connect body w =
      let w' : World p = record w { connections = suc w.connections } in
      if p.db_fault w.connections
      then (err db_error, w')
      else (let (r, v) = body w' in
          elim r [ ok a ↦ (ok a, v) | err e ↦ (err e, record v { db = w.db }) ])

-- The handlers `except psycopg.Error` and `except UniqueViolation` (a subclass), which raise `e`.
abbrev pub except_psycopg_error : {S A : Type 0} → Error → Error → Exec S A
except_psycopg_error e db_error = raise e
except_psycopg_error e unique_violation = raise e
except_psycopg_error e other = raise other

abbrev pub except_unique_violation : {S A : Type 0} → Error → Error → Exec S A
except_unique_violation e unique_violation = raise e
except_unique_violation e other = raise other

-- `await redis_client.command(…)`
unfoldable pub redis_call :
    (p : Platform) {A : Type 0} → (p.redis.Store → Option A × p.redis.Store) → Act p A
redis_call p command w =
    let (reply, store) = command w.redis in
    let w' : World p = record w { redis = store } in
    elim reply [ none ↦ (err redis_error, w') | some a ↦ (ok a, w') ]

module _ {p : Platform} where
  -- `cur.execute` of a statement that may violate a constraint
  unfoldable pub execute : (Database → Result Database) → Act p Unit
  execute statement w = elim (statement w.db) [
    | ok db ↦ (ok tt, record w { db = db })
    | err e ↦ (err e, w)
  ]

  -- an UPDATE, which cannot fail here
  abbrev pub update : (Database → Database) → Act p Unit
  update statement w = (ok tt, record w { db = statement w.db })

  -- a SELECT
  abbrev pub select : {A : Type 0} → (Database → A) → Act p A
  select query w = (ok (query w.db), w)

  -- a text that is written to or compared with a UUID column
  abbrev pub as_uuid : String → Act p ℕ
  as_uuid s w = elim (p.uuid_of s) [ none ↦ (err db_error, w) | some id ↦ (ok id, w) ]
