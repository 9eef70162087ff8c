-- ===== src/UserHelpers/Keeps.antt =====
-- Finding the user of a request does not touch the tables.
use secure_chess.Platform.{Platform}
use secure_chess.Platform.Tables.{Database}
use secure_chess.Platform.Keeps.{Keeps, keeps_rules}
use secure_chess.Jwt.Keeps.{token_rules}
use secure_chess.UserHelpers.{Request, get_user_id}

module _ {p : Platform} {Q : Database → Type 0} where
  pub get_user_id-Keeps : (request : Request) → Keeps p Q (get_user_id request)
  unfolding get_user_id
  get_user_id-Keeps request = search (keeps_rules, token_rules) depth 14
