-- ===== src/RateLimit/Runs.antt =====
-- The wrapper of `rate_limit` and the tables: its handler sees those of the call.
use secure_chess.Prelude.{
  ℕ, String, ◌≡◌, refl, ◌⊎◌, inl, inr, false, Option, some, Bool-cases, ltb, arith,
}
use secure_chess.Exec.{is_ok}
use secure_chess.Exec.Laws.{Result-cases}
use secure_chess.Platform.{Platform, World}
use secure_chess.Platform.Calls.{Act, utc_now}
use secure_chess.UserHelpers.{Request}
use secure_chess.RedisClient.{get_redis_client}
use secure_chess.RedisClient.Keeps.{get_redis_client-Keeps}
use secure_chess.RateLimit.{find_identifier, check_rate_limit, rate_limit, rate_key}
use secure_chess.RateLimit.Keeps.{find_identifier-Keeps, check_rate_limit-Keeps}

module _ {p : Platform} {A : Type 0} (max window : ℕ) (identifier_type key_prefix : String)
    (request : Request) (body : Option String) (func : Request → Act p A) (w : World p) where
  -- A limited call that does not raise in the limiter is the handler's, on the same tables.
  pub rate_limit_runs :
      let r = rate_limit max window identifier_type key_prefix (some request) body func w in
      (is_ok r.0 ≡ false) ⊎ ((v : World p) × (v.db ≡ w.db) × (r ≡ func request v))
  unfolding rate_limit utc_now
  rate_limit_runs =
      let (a, w1) = find_identifier identifier_type request body w in
      let (b, w2) = get_redis_client {p = p} w1 in
      let same1 =
        (find_identifier-Keeps {Q = λ db. db ≡ w.db} identifier_type request body).at w refl in
      let same2 = (get_redis_client-Keeps {Q = λ db. db ≡ w.db}).at w1 same1 in
      elim (Result-cases a) [
        | inr (x, e) ↦ inl ground arith
        | inl (identifier, e) ↦ elim (Result-cases b) [
          | inr (x, f) ↦ inl ground arith
          | inl (_, f) ↦
              let key = rate_key key_prefix identifier in
              let (c, w3) = check_rate_limit key max window w2 in
              let same3 =
                (check_rate_limit-Keeps {Q = λ db. db ≡ w.db} key max window).at w2 same2 in
              elim (Result-cases c) [
                | inr (x, g) ↦ inl ground arith
                | inl ((current, remaining, reset), g) ↦ elim (Bool-cases (ltb max current)) [
                  | inl over ↦ inl ground arith
                  | inr within ↦ inr (w3, same3, ground arith)
                ]
              ]
        ]
      ]
