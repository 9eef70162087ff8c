-- ===== src/UserHelpers.antt =====
-- services/api/utils/user_helpers.py, and the parts of a request that the services read.
pub mod Bearer
pub mod Keeps
use secure_chess.Prelude.{
  ℕ, String, Bool, true, false, Option, none, some, is_empty, not, str_eq, strip, split_once, ◌||◌,
  if◌then◌else◌,
}
use secure_chess.Exec.{
  Exec, ok, err, Error, http, key_error, pure, raise, raise_if, or_raise, ◌>>=◌, ◌>>◌,
}
use secure_chess.Platform.{Platform, World, Claims}
use secure_chess.Platform.Calls.{Act}
use secure_chess.Jwt.{decode_token}

-- `request.headers.get(…)` for the two headers, and `request.client.host`
pub record Request : Type 0 where
  pub forwarded_for : Option String
  pub authorization : Option String
  pub client_host : Option String

-- the test on `parts`: two of them, and the first is "Bearer"
abbrev pub bearer_of : Option (String × String) → Option String
bearer_of none = none
bearer_of (some (scheme, jwt)) = if str_eq scheme "Bearer" then some jwt else none

module _ {p : Platform} where
  unfoldable pub get_user_id : Request → Act p String
  get_user_id request = do
    auth_header ← or_raise request.authorization (http 401 "Authorization Header not found")
    part ←
        or_raise (bearer_of (split_once b' ' auth_header))
          (http 401 "Invalid authorization header format")
    let jwt = strip part
    raise_if (is_empty jwt) (http 401 "Missing bearer token")
    decoded_token ← decode_token jwt "access"
    or_raise decoded_token.sub (http 401 "user_id not found")
