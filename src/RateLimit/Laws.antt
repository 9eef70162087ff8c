-- ===== src/RateLimit/Laws.antt =====
-- What the rate limiter relies on of Redis: the documented behaviour of INCR, EXPIRE and TTL on
-- a server that is up, and of the passing of time.
use secure_chess.Prelude.{ℕ, suc, ◌≤◌, ◌≡◌, String, Bool, true, false, some, str_eq, if◌then◌else◌}
use secure_chess.Platform.Redis.{RedisApi, Ttl, no_key, no_expiry, seconds}

-- the expiry of a key after INCR, which makes a missing key
abbrev pub made : Ttl → Ttl
made no_key = no_expiry
made t = t

-- the expiry of a key after EXPIRE
abbrev pub expiring : ℕ → Ttl → Ttl
expiring n no_key = no_key
expiring n _ = seconds n

pub record CounterLaws (r : RedisApi) : Type 0 where
  -- whether the server answers; the number at a key, 0 if there is none; its time to live
  pub up : r.Store → Bool
  pub count : r.Store → String → ℕ
  pub remaining : r.Store → String → Ttl
  -- the store after some seconds
  pub lapse : ℕ → r.Store → r.Store
  pub incr-reply :
      (k : String) (s : r.Store) → up s ≡ true → (r.incr k s).0 ≡ some (suc (count s k))
  pub incr-up : (k : String) (s : r.Store) → up s ≡ true → up (r.incr k s).1 ≡ true
  pub incr-count :
      (k : String) (s : r.Store) (j : String)
      → up s ≡ true
      → count (r.incr k s).1 j ≡ (if str_eq k j then suc (count s k) else count s j)
  pub incr-remaining :
      (k : String) (s : r.Store) → up s ≡ true → remaining (r.incr k s).1 k ≡ made (remaining s k)
  pub expire-reply :
      (k : String) (n : ℕ) (s : r.Store) → up s ≡ true → (b : Bool) × ((r.expire k n s).0 ≡ some b)
  pub expire-up : (k : String) (n : ℕ) (s : r.Store) → up s ≡ true → up (r.expire k n s).1 ≡ true
  pub expire-count :
      (k : String) (n : ℕ) (s : r.Store) (j : String)
      → up s ≡ true
      → 1 ≤ n
      → count (r.expire k n s).1 j ≡ count s j
  pub expire-remaining :
      (k : String) (n : ℕ) (s : r.Store)
      → up s ≡ true
      → 1 ≤ n
      → remaining (r.expire k n s).1 k ≡ expiring n (remaining s k)
  pub ttl-reply : (k : String) (s : r.Store) → up s ≡ true → (r.ttl k s).0 ≡ some (remaining s k)
  pub ttl_same : (k : String) (s : r.Store) → up s ≡ true → (r.ttl k s).1 ≡ s
  pub lapse-up : (d : ℕ) (s : r.Store) → up (lapse d s) ≡ up s
  -- a key without an expiry stays, and one with an expiry is gone when its time is over
  pub lapse_stays :
      (d : ℕ) (s : r.Store) (k : String)
      → remaining s k ≡ no_expiry
      → (remaining (lapse d s) k ≡ no_expiry) × (count (lapse d s) k ≡ count s k)
  pub lapse_gone :
      (d n : ℕ) (s : r.Store) (k : String)
      → remaining s k ≡ seconds n
      → n ≤ d
      → (remaining (lapse d s) k ≡ no_key) × (count (lapse d s) k ≡ 0)

-- the store after the calls of one check
abbrev pub counted : (r : RedisApi) → String → ℕ → Bool → r.Store → r.Store
counted r key window_seconds true s = (r.expire key window_seconds (r.incr key s).1).1
counted r key window_seconds false s = (r.incr key s).1

-- the time to live that one check leaves
abbrev pub ttl_after : ℕ → Bool → Ttl → Ttl
ttl_after window_seconds true t = expiring window_seconds (made t)
ttl_after window_seconds false t = made t

module _ {r : RedisApi} (l : CounterLaws r) (key : String) (window : ℕ) where
  -- One check counts one request at its key and leaves the counts of all other keys.
  pub counted-count :
      (first : Bool) (s : r.Store) (j : String)
      → l.up s ≡ true
      → 1 ≤ window
      → l.count (counted r key window first s) j
        ≡ (if str_eq key j then suc (l.count s key) else l.count s j)
  counted-count true s j u h =
      rw (l.expire-count key window (r.incr key s).1 j (l.incr-up key s u) h)
        (l.incr-count key s j u)
  counted-count false s j u h = l.incr-count key s j u

  pub counted-up :
      (first : Bool) (s : r.Store) → l.up s ≡ true → l.up (counted r key window first s) ≡ true
  counted-up true s u = l.expire-up key window (r.incr key s).1 (l.incr-up key s u)
  counted-up false s u = l.incr-up key s u

  pub counted-remaining :
      (first : Bool) (s : r.Store)
      → l.up s ≡ true
      → 1 ≤ window
      → l.remaining (counted r key window first s) key ≡ ttl_after window first (l.remaining s key)
  counted-remaining true s u h = rw (
    l.expire-remaining key window (r.incr key s).1 (l.incr-up key s u) h,
    l.incr-remaining key s u,
  )
  counted-remaining false s u h = l.incr-remaining key s u
