-- ===== src/Auth.antt =====
-- services/api/auth/jwt_routes.py. Each route is a handler (`…_handler`) under its `rate_limit`.
-- The bodies are those that pydantic has accepted.
pub mod Invariant
pub mod Spent
pub mod Rotation
pub mod Logout
pub mod Accounts
pub mod SignIn
pub mod Session
pub mod Renewal
use Prim.Native.String.{count}
use secure_chess.Prelude.{
  ℕ, String, Bool, true, Option, none, some, [], ◌∷◌, is_empty, ltb, ◌||◌, not, if◌then◌else◌,
}
use secure_chess.Exec.{
  uncaught_exception, Exec, ok, err, Error, http, key_error, value_error, pure, raise, raise_if,
  or_raise, gets, try_with, ◌>>=◌, ◌>>◌,
}
use secure_chess.Platform.{Platform, World, Claims}
use secure_chess.Platform.Tables.{User, RefreshToken, text}
use secure_chess.Platform.Calls.{
  Act, utc_now, uuid4, connect, execute, update, select, as_uuid, except_psycopg_error,
  except_unique_violation,
}
use secure_chess.Jwt.{create_access_token, create_refresh_token, decode_token}
use secure_chess.UserHelpers.{Request}
use secure_chess.RateLimit.{get_client_ip, rate_limit}
use secure_chess.Sql.{insert_user, select_user, insert_refresh_token, select_active, revoke}
use secure_chess.Audit.{write_audit_event}

pub record SignupBody : Type 0 where
  pub username : String
  pub email : String
  pub password : String

-- `created_at` is the time that the reply writes in ISO format
pub record SignupReply : Type 0 where
  pub user_id : String
  pub username : String
  pub email : String
  pub created_at : ℕ

pub record SignInBody : Type 0 where
  pub username : String
  pub password : String

pub record SignInReply : Type 0 where
  pub user_id : String
  pub username : String
  pub access_token : String
  pub refresh_token : String

pub record RefreshReply : Type 0 where
  pub access_token : String
  pub refresh_token : String

module _ {p : Platform} where
  -- `pwd_context.hash(password)`, with a fresh salt
  unfoldable pub hash_password : String → Act p String
  unfolding uuid4
  hash_password password = do salt ← uuid4; or_raise (p.hash password salt) (value_error "password")

  -- INSERT INTO users … RETURNING …
  unfoldable pub insert_new_user : SignupBody → String → Act p User
  unfolding uuid4 utc_now execute
  insert_new_user body password_hash = do
    user_id ← uuid4
    now ← utc_now
    let row : User = record {
      user_id = user_id;
      username = body.username;
      email = body.email;
      password_hash = password_hash;
      created_at = now;
    }
    execute (insert_user row)
    pure row

  unfoldable pub signup_handler : SignupBody → Request → Act p SignupReply
  signup_handler body request = do
    raise_if (ltb (count body.password) 6)
        (http 400 "Password must be at least longer than 6 characters")
    password_hash ← hash_password body.password
    row ←
        try_with (connect (insert_new_user body password_hash))
          (except_unique_violation (http 409 "Username or email already exists"))
    write_audit_event "signup" (some (p.str_uuid row.user_id)) (some (get_client_ip request))
        (("username", text body.username) ∷ [])
    pure (record {
      user_id = p.str_uuid row.user_id;
      username = row.username;
      email = row.email;
      created_at = row.created_at;
    })

  unfoldable pub signup : SignupBody → Request → Act p SignupReply
  signup body request =
      rate_limit 5000 3600 "ip" "sign-up" (some request) none (signup_handler body)

  -- INSERT INTO refresh_tokens(token_id, user_id, token_hash, expiration_date)
  abbrev pub insert_token : ℕ → ℕ → String → ℕ → Act p Unit
  insert_token token_id user_id token_hash expiration_date = do
    now ← utc_now
    execute (
        insert_refresh_token (record {
          token_id = token_id;
          user_id = user_id;
          token_hash = token_hash;
          expiration_date = expiration_date;
          revoked_date = none;
          created_at = now;
        }))

  -- a failed login is recorded with its reason, and answered with 401
  unfoldable pub reject_login : {A : Type 0} → Option String → String → String → Request → Act p A
  reject_login user_id username reason request = do
    write_audit_event "login_failed" user_id (some (get_client_ip request))
        (("username", text username) ∷ ("reason", text reason) ∷ [])
    raise (http 401 "Invalid credentials")

  -- what follows once the password is right
  unfoldable pub start_session : User → Request → Act p SignInReply
  start_session user request = do
    access_token ← create_access_token (p.str_uuid user.user_id)
    (refresh_token, refresh_token_id, expiration_date) ←
        create_refresh_token (p.str_uuid user.user_id)
    let refresh_token_hash = p.sha256 refresh_token
    try_with
        (connect (insert_token refresh_token_id user.user_id refresh_token_hash expiration_date))
        (except_psycopg_error (http 500 "Failed to persist refresh token"))
    write_audit_event "login" (some (p.str_uuid user.user_id)) (some (get_client_ip request))
        (("username", text user.username) ∷ [])
    pure (record {
      user_id = p.str_uuid user.user_id;
      username = user.username;
      access_token = access_token;
      refresh_token = refresh_token;
    })

  unfoldable pub check_password : SignInBody → Request → Option User → Act p SignInReply
  check_password body request none = reject_login none body.username "user not found" request
  check_password body request (some user) = do
    verified ← or_raise (p.verify body.password user.password_hash) uncaught_exception
    if verified
        then start_session user request
        else reject_login (some (p.str_uuid user.user_id)) body.username "wrong password" request

  unfoldable pub signin_handler : SignInBody → Request → Act p SignInReply
  unfolding check_password
  signin_handler body request = do
    raise_if (is_empty body.username || is_empty body.password) (http 400 "Missing information")
    row ← connect (select (select_user body.username))
    check_password body request row

  unfoldable pub signin : SignInBody → Request → Act p SignInReply
  signin body request = rate_limit 5000 900 "ip" "sign-in" (some request) none (signin_handler body)

  -- the new pair of tokens of a refresh
  unfoldable pub issue_pair : String → Act p RefreshReply
  issue_pair sub = do
    new_access_token ← create_access_token sub
    (new_refresh_token, new_jti, new_exp_date) ← create_refresh_token sub
    user_id ← as_uuid sub
    insert_token new_jti user_id (p.sha256 new_refresh_token) new_exp_date
    pure (record { access_token = new_access_token; refresh_token = new_refresh_token })

  -- the transaction of a refresh
  unfoldable pub rotate : String → String → Act p RefreshReply
  rotate sub rehashed_token = do
    now ← utc_now
    row ← select (select_active rehashed_token now)
    or_raise row (http 401 "Invalid or expired refresh token")
    update (revoke rehashed_token now)
    issue_pair sub

  unfoldable pub refresh_handler : String → Request → Act p RefreshReply
  refresh_handler refresh_token request = do
    decoded_token ← decode_token refresh_token "refresh"
    sub ← or_raise decoded_token.sub (key_error "sub")
    or_raise decoded_token.jti (key_error "jti")
    try_with (connect (rotate sub (p.sha256 refresh_token)))
        (except_psycopg_error (http 500 "Failed to refresh token"))

  unfoldable pub refresh : String → Request → Act p RefreshReply
  refresh refresh_token request =
      rate_limit 100 60 "user_id" "refresh" (some request) (some refresh_token)
        (refresh_handler refresh_token)

  -- `try: decode_token(…) except: pass`
  abbrev pub check_token : String → Act p Unit
  check_token refresh_token =
      try_with (do decode_token refresh_token "refresh"; pure tt) (λ _. pure tt)

  unfoldable pub logout_handler : String → Request → Act p String
  logout_handler refresh_token request = do
    check_token refresh_token
    let refresh_token_hash = p.sha256 refresh_token
    try_with (connect (do now ← utc_now; update (revoke refresh_token_hash now)))
        (except_psycopg_error (http 500 "Failed to revoke token"))
    write_audit_event "logout" none (some (get_client_ip request)) []
    pure "Logged out successfully"

  unfoldable pub logout : String → Request → Act p String
  logout refresh_token request =
      rate_limit 100 60 "ip" "logout" (some request) none (logout_handler refresh_token)
