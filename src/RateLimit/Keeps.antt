-- ===== src/RateLimit/Keeps.antt =====
-- The wrapper of `rate_limit` keeps what its handler keeps.
use secure_chess.Prelude.{ℕ, String, Bool, true, false, Option}
use secure_chess.Platform.{Platform}
use secure_chess.Platform.Tables.{Database}
use secure_chess.Platform.Calls.{Act}
use secure_chess.Platform.Keeps.{Keeps, keeps_rules}
use secure_chess.Jwt.Keeps.{token_rules}
use secure_chess.UserHelpers.{Request}
use secure_chess.RedisClient.Keeps.{get_redis_client-Keeps}
use secure_chess.RateLimit.{
  set_expiry, now_seconds, count_request, check_rate_limit, user_or_ip, find_identifier, rate_limit,
}

module _ {p : Platform} {Q : Database → Type 0} where
  now_seconds-Keeps : Keeps p Q now_seconds
  now_seconds-Keeps = search keeps_rules

  set_expiry-Keeps : (b : Bool) (key : String) (window : ℕ) → Keeps p Q (set_expiry b key window)
  set_expiry-Keeps false key window = search keeps_rules
  set_expiry-Keeps true key window = search keeps_rules

  count_request-Keeps : (key : String) (max window : ℕ) → Keeps p Q (count_request key max window)
  unfolding count_request
  count_request-Keeps key max window =
      search (keeps_rules, set_expiry-Keeps, now_seconds-Keeps) depth 12

  pub check_rate_limit-Keeps :
      (key : String) (max window : ℕ) → Keeps p Q (check_rate_limit key max window)
  unfolding check_rate_limit
  check_rate_limit-Keeps key max window =
      search (keeps_rules, count_request-Keeps, now_seconds-Keeps) depth 10

  user_or_ip-Keeps : (request : Request) (token : String) → Keeps p Q (user_or_ip request token)
  unfolding user_or_ip
  user_or_ip-Keeps request token = search (keeps_rules, token_rules) depth 10

  pub find_identifier-Keeps :
      (type : String) (request : Request) (body : Option String)
      → Keeps p Q (find_identifier type request body)
  unfolding find_identifier
  find_identifier-Keeps type request body = search (keeps_rules, user_or_ip-Keeps) depth 10

  pub rate_limit-Keeps :
      {A : Type 0} (max window : ℕ) (type key_prefix : String) (request : Option Request)
      (body : Option String) (func : Request → Act p A)
      → ((r : Request) → Keeps p Q (func r))
      → Keeps p Q (rate_limit max window type key_prefix request body func)
  unfolding rate_limit
  rate_limit-Keeps max window type key_prefix request body func k =
      search
        (
          keeps_rules, now_seconds-Keeps, find_identifier-Keeps, get_redis_client-Keeps,
          check_rate_limit-Keeps,
        )
        depth 20
