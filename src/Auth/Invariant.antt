-- ===== src/Auth/Invariant.antt =====
-- No route of services/api/auth/jwt_routes.py breaks an invariant of the tables.
use secure_chess.Prelude.{String, Option, none, some}
use secure_chess.Platform.{Platform}
use secure_chess.Platform.Tables.{User, Database}
use secure_chess.Platform.Keeps.{Keeps}
use secure_chess.Jwt.Keeps.{token_rules}
use secure_chess.UserHelpers.{Request}
use secure_chess.Audit.Keeps.{write_audit_event-Keeps}
use secure_chess.Sql.Keeps.{IsKept, kept_rules}
use secure_chess.Auth.{
  SignupBody, SignInBody, signup_handler, signin_handler, refresh_handler, logout_handler,
  hash_password, insert_new_user, start_session, reject_login, check_password, issue_pair, rotate,
}

ruleset route_rules = (kept_rules, token_rules, write_audit_event-Keeps)

module _ {p : Platform} {Q : Database → Type 0} (k : IsKept Q) where
  hash_password-Keeps : (password : String) → Keeps p Q (hash_password password)
  unfolding hash_password
  hash_password-Keeps password = search route_rules

  insert_new_user-Keeps :
      (body : SignupBody) (hash : String) → Keeps p Q (insert_new_user body hash)
  unfolding insert_new_user
  insert_new_user-Keeps body hash = search route_rules depth 10

  pub signup_handler-Keeps :
      (body : SignupBody) (request : Request) → Keeps p Q (signup_handler body request)
  unfolding signup_handler
  signup_handler-Keeps body request =
      search (route_rules, hash_password-Keeps, insert_new_user-Keeps) depth 12

  reject_login-Keeps :
      {A : Type 0} (u : Option String) (username reason : String) (request : Request)
      → Keeps p Q {A = A} (reject_login u username reason request)
  unfolding reject_login
  reject_login-Keeps u username reason request = search route_rules depth 8

  start_session-Keeps : (user : User) (request : Request) → Keeps p Q (start_session user request)
  unfolding start_session
  start_session-Keeps user request = search route_rules depth 16

  check_password-Keeps :
      (body : SignInBody) (request : Request) (user : Option User)
      → Keeps p Q (check_password body request user)
  unfolding check_password
  check_password-Keeps body request none = search reject_login-Keeps
  check_password-Keeps body request (some user) =
      search (route_rules, reject_login-Keeps, start_session-Keeps)

  pub signin_handler-Keeps :
      (body : SignInBody) (request : Request) → Keeps p Q (signin_handler body request)
  unfolding signin_handler
  signin_handler-Keeps body request = search (route_rules, check_password-Keeps) depth 8

  pub issue_pair-Keeps : (sub : String) → Keeps p Q (issue_pair sub)
  unfolding issue_pair
  issue_pair-Keeps sub = search route_rules depth 16

  rotate-Keeps : (sub hash : String) → Keeps p Q (rotate sub hash)
  unfolding rotate
  rotate-Keeps sub hash = search (route_rules, issue_pair-Keeps) depth 12

  pub refresh_handler-Keeps :
      (token : String) (request : Request) → Keeps p Q (refresh_handler token request)
  unfolding refresh_handler
  refresh_handler-Keeps token request = search (route_rules, rotate-Keeps) depth 12

  pub logout_handler-Keeps :
      (token : String) (request : Request) → Keeps p Q (logout_handler token request)
  unfolding logout_handler
  logout_handler-Keeps token request = search route_rules depth 12
