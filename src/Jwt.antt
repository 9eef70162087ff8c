-- ===== src/Jwt.antt =====
-- services/api/auth/jwt_helpers.py
pub mod Keeps
pub mod Laws
pub mod Decode
pub mod Issue
use secure_chess.Prelude.{
  ℕ, ◌+◌, ◌*◌, ◌/◌, String, Option, none, some, is_empty, not, str_eq, ◌++◌, if◌then◌else◌, Bool,
}
use secure_chess.Exec.{
  Exec, ok, err, Error, http, runtime_error, jwt_error, pure, raise, raise_if, or_raise, gets,
  ◌>>=◌, ◌>>◌,
}
use secure_chess.Platform.{Platform, World, Claims, Decoded, payload, expired, invalid}
use secure_chess.Platform.Calls.{Act, timestamp, utc_now, uuid4}

-- `timedelta(minutes=…)`, `timedelta(days=…)` and `timedelta(seconds=…)`, in microseconds
abbrev pub minutes : ℕ → ℕ
minutes n = n * 60000000

abbrev pub days : ℕ → ℕ
days n = n * 86400000000

abbrev pub seconds : ℕ → ℕ
seconds n = n * 1000000

-- the PAYLOAD of the three kinds of token, at the time `now`
abbrev pub access_payload : String → ℕ → ℕ → Claims
access_payload user_id now mins = record {
  jti = none;
  sub = some user_id;
  match_id = none;
  type = some "access";
  iat = timestamp now;
  exp = timestamp (now + minutes mins);
}

abbrev pub refresh_payload : String → String → ℕ → ℕ → Claims
refresh_payload token_id user_id now expiration_date = record {
  jti = some token_id;
  sub = some user_id;
  match_id = none;
  type = some "refresh";
  iat = timestamp now;
  exp = timestamp expiration_date;
}

abbrev pub ticket_payload : String → String → String → ℕ → Claims
ticket_payload token_id user_id match_id now = record {
  jti = some token_id;
  sub = some user_id;
  match_id = some match_id;
  type = some "match_ticket";
  iat = timestamp now;
  exp = timestamp (now + seconds 60);
}

-- `token_type != decoded_token.get("type")`
abbrev pub has_type : String → Option String → Bool
has_type token_type none = Bool.false
has_type token_type (some type) = str_eq token_type type

module _ {p : Platform} where
  -- `jwt.encode(PAYLOAD, JWT_SECRET, algorithm=JWT_ALGO)`
  abbrev pub encode : Claims → Act p String
  encode c = or_raise (p.encode c p.jwt_secret p.jwt_algo) jwt_error

  unfoldable pub create_access_token : String → Act p String
  unfolding utc_now
  create_access_token user_id = do
    raise_if (is_empty p.jwt_secret) (runtime_error "JWT Secret is missing")
    now ← utc_now
    encode (access_payload user_id now p.jwt_mins)

  -- the token, its id and its expiration date
  unfoldable pub create_refresh_token : String → Act p (String × ℕ × ℕ)
  unfolding utc_now uuid4
  create_refresh_token user_id = do
    raise_if (is_empty p.jwt_secret) (runtime_error "JWT Secret is missing")
    raise_if (is_empty p.jwt_algo) (runtime_error "JWT ALGO is missing")
    token_id ← uuid4
    now ← utc_now
    let expiration_date = now + days p.jwt_days
    encoded_token ← encode (refresh_payload (p.str_uuid token_id) user_id now expiration_date)
    pure (encoded_token, token_id, expiration_date)

  unfoldable pub create_match_ticket : String → String → Act p String
  unfolding utc_now uuid4
  create_match_ticket user_id match_id = do
    raise_if (is_empty p.jwt_secret) (runtime_error "JWT SECRET is Missing")
    token_id ← uuid4
    now ← utc_now
    encode (ticket_payload (p.str_uuid token_id) user_id match_id now)

  -- the `try` around `jwt.decode`
  abbrev pub or_unauthorized : Decoded → Act p Claims
  or_unauthorized (payload c) = pure c
  or_unauthorized expired = raise (http 401 "Token Expired")
  or_unauthorized invalid = raise (http 401 "Invalid Token")

  unfoldable pub decode_token : String → String → Act p Claims
  unfolding utc_now
  decode_token token token_type = do
    raise_if (is_empty p.jwt_secret) (runtime_error "JWT Secret is missing")
    raise_if (is_empty p.jwt_algo) (runtime_error "JWT ALGO is missing")
    now ← utc_now
    decoded_token ← or_unauthorized (p.decode token p.jwt_secret p.jwt_algo now)
    raise_if (not (has_type token_type decoded_token.type)) (http 401 "Unexpected token type")
    pure decoded_token
