-- ===== src/RedisClient/Client.antt =====
-- Whether the shared client is there.
use secure_chess.Prelude.{◌≡◌, true, false, ◌⊎◌, inl, inr, Bool-cases, arith}
use secure_chess.Exec.{ok, err, value_error}
use secure_chess.Platform.{Platform, World}
use secure_chess.Platform.Calls.{redis_call}
use secure_chess.RedisClient.{get_redis_client, is_missing, url_of}

module _ {p : Platform} where
  -- With the client there, `get_redis_client` does nothing.
  pub get_redis_client-connected :
      (w : World p) → w.has_client ≡ true → get_redis_client w ≡ (ok tt, w)
  unfolding get_redis_client
  get_redis_client-connected w h = rw (get_redis_client, h)

  -- The first call opens the client or raises ValueError. With an address that `from_url` takes, it
  -- sets the client even where its ping fails and the call raises: then the next call returns it,
  -- with no ping, and changes nothing. Without an address, and with one that `from_url` refuses, the
  -- call raises ValueError and changes nothing, so that every later call does the same.
  pub get_redis_client_retry :
      (w : World p)
      → w.has_client ≡ false
      → let (r, v) = get_redis_client w in
        let taken = p.is_redis_address (url_of p.redis_url) in
        ((is_missing p.redis_url ≡ false)
          × (taken ≡ true)
          × (v.has_client ≡ true)
          × (get_redis_client v ≡ (ok tt, v)))
        ⊎ ((is_missing p.redis_url ≡ true)
            × (r ≡ err (value_error "redis_url is not found"))
            × (v ≡ w))
        ⊎ ((is_missing p.redis_url ≡ false)
            × (taken ≡ false)
            × (r ≡ err (value_error "Redis URL"))
            × (v ≡ w))
  unfolding get_redis_client redis_call
  get_redis_client_retry w h = elim (Bool-cases (is_missing p.redis_url)) [
    | inl missing ↦ inr (inl (missing, ground arith, ground arith))
    | inr given ↦ elim (Bool-cases (p.is_redis_address (url_of p.redis_url))) [
      | inl taken ↦ inl (given, taken, ground arith, ground arith)
      | inr refused ↦ inr (inr (given, refused, ground arith, ground arith))
    ]
  ]
