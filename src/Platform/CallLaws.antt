-- ===== src/Platform/CallLaws.antt =====
-- What a Redis call does to the state.
use secure_chess.Prelude.{◌≡◌, Option, none, some, ◌⊎◌, inl, inr, Option-cases}
use secure_chess.Exec.{ok, err, redis_error}
use secure_chess.Platform.{Platform, World}
use secure_chess.Platform.Calls.{redis_call}

module _ (p : Platform) {A : Type 0} (command : p.redis.Store → Option A × p.redis.Store)
    (w : World p) where
  pub redis_call-some :
      {a : A}
      → (command w.redis).0 ≡ some a
      → redis_call p command w ≡ (ok a, record w { redis = (command w.redis).1 })
  unfolding redis_call
  redis_call-some e = rw (redis_call, e)

  pub redis_call-none :
      (command w.redis).0 ≡ none
      → redis_call p command w ≡ (err redis_error, record w { redis = (command w.redis).1 })
  unfolding redis_call
  redis_call-none e = rw (redis_call, e)

  pub redis_call-cases :
      let v : World p = record w { redis = (command w.redis).1 } in
      ((a : A) × (redis_call p command w ≡ (ok a, v)))
      ⊎ (redis_call p command w ≡ (err redis_error, v))
  redis_call-cases = elim (Option-cases (command w.redis).0) [
    | inl e ↦ inr (redis_call-none e)
    | inr (a, e) ↦ inl (a, redis_call-some e)
  ]
