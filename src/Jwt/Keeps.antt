-- ===== src/Jwt/Keeps.antt =====
-- Issuing and checking a token does not touch the tables.
use secure_chess.Prelude.{String}
use secure_chess.Platform.{Platform, Decoded, payload, expired, invalid}
use secure_chess.Platform.Tables.{Database}
use secure_chess.Platform.Keeps.{Keeps, keeps_rules}
use secure_chess.Jwt.{
  create_access_token, create_refresh_token, create_match_ticket, decode_token, or_unauthorized,
}

module _ {p : Platform} {Q : Database → Type 0} where
  pub create_access_token-Keeps : (u : String) → Keeps p Q (create_access_token u)
  unfolding create_access_token
  create_access_token-Keeps u = search keeps_rules depth 8

  pub create_refresh_token-Keeps : (u : String) → Keeps p Q (create_refresh_token u)
  unfolding create_refresh_token
  create_refresh_token-Keeps u = search keeps_rules depth 10

  pub create_match_ticket-Keeps : (u m : String) → Keeps p Q (create_match_ticket u m)
  unfolding create_match_ticket
  create_match_ticket-Keeps u m = search keeps_rules depth 8

  or_unauthorized-Keeps : (d : Decoded) → Keeps p Q (or_unauthorized d)
  or_unauthorized-Keeps (payload c) = search keeps_rules
  or_unauthorized-Keeps expired = search keeps_rules
  or_unauthorized-Keeps invalid = search keeps_rules

  pub decode_token-Keeps : (token type : String) → Keeps p Q (decode_token token type)
  unfolding decode_token
  decode_token-Keeps token type = search (keeps_rules, or_unauthorized-Keeps) depth 10

pub ruleset token_rules = (
  create_access_token-Keeps, create_refresh_token-Keeps, create_match_ticket-Keeps,
  decode_token-Keeps,
)
