-- ===== src/Auth/SignIn.antt =====
-- `signin` of services/api/auth/jwt_routes.py
use secure_chess.Prelude.{suc, ◌≡◌, true, false, some, ◌||◌, is_empty, arith}
use secure_chess.Platform.{Platform, World}
use secure_chess.Platform.Tables.{User}
use secure_chess.Platform.Calls.{connect}
use secure_chess.UserHelpers.{Request}
use secure_chess.Sql.{select_user}
use secure_chess.Auth.{SignInBody, start_session, signin_handler}

module _ {p : Platform} (body : SignInBody) (request : Request) (w : World p)
    (given : (is_empty body.username || is_empty body.password) ≡ false)
    (up : p.db_fault w.connections ≡ false) where
  -- With the account of the name and a password that verifies, the session starts.
  pub signin_handler_accepts :
      (user : User)
      → select_user body.username w.db ≡ some user
      → p.verify body.password user.password_hash ≡ some true
      → signin_handler body request w
        ≡ start_session user request (record w { connections = suc w.connections })
  unfolding signin_handler connect
  signin_handler_accepts user e good = ground arith
