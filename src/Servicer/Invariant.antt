-- ===== src/Servicer/Invariant.antt =====
-- No call of services/api/rpc/servicer.py breaks an invariant of the tables.
use secure_chess.Prelude.{String, Option, none, some, List, [], ◌∷◌, split}
use secure_chess.Exec.{Error, http, db_error, unique_violation}
use secure_chess.Platform.{Platform, Claims}
use secure_chess.Platform.Tables.{Database, Match}
use secure_chess.Platform.Keeps.{Keeps, Keeps-pure, Keeps-raise, Keeps-if}
use secure_chess.Jwt.Keeps.{token_rules}
use secure_chess.RedisClient.Keeps.{get_redis_client-Keeps}
use secure_chess.Audit.Keeps.{write_audit_event-Keeps}
use secure_chess.Sql.Keeps.{IsKept, kept_rules}
use secure_chess.Servicer.{
  GameEndRequest, ResumeTokenRequest, except_http, seat, seat_or_invalid, verify_match_ticket,
  record_game, record_if_found, not_acknowledged, end_game, acknowledge, report_game_end,
  create_resume_token, unpack, resolve_value, resolve_resume_token,
}

module _ {p : Platform} {Q : Database → Type 0} (k : IsKept Q) where
  except_http-Keeps : {A : Type 0} (a : A) (e : Error) → Keeps p Q (except_http a e)
  except_http-Keeps a (http status detail) = Keeps-pure a
  except_http-Keeps a e = Keeps-raise e

  seat_or_invalid-Keeps : (c : Option Claims) → Keeps p Q (seat_or_invalid c)
  unfolding seat
  seat_or_invalid-Keeps none = search kept_rules
  seat_or_invalid-Keeps (some c) = search kept_rules depth 8

  pub verify_match_ticket-Keeps : (ticket : String) → Keeps p Q (verify_match_ticket ticket)
  unfolding verify_match_ticket
  verify_match_ticket-Keeps ticket =
      search (kept_rules, token_rules, except_http-Keeps, seat_or_invalid-Keeps) depth 10

  record_if_found-Keeps :
      (request : GameEndRequest) (row : Option Match) → Keeps p Q (record_if_found request row)
  unfolding record_game
  record_if_found-Keeps request none = search kept_rules
  record_if_found-Keeps request (some row) = search kept_rules depth 14

  not_acknowledged-Keeps : (e : Error) → Keeps p Q (not_acknowledged e)
  not_acknowledged-Keeps db_error = Keeps-pure none
  not_acknowledged-Keeps unique_violation = Keeps-pure none
  not_acknowledged-Keeps e = Keeps-raise e

  end_game-Keeps : (request : GameEndRequest) → Keeps p Q (end_game request)
  unfolding end_game
  end_game-Keeps request = search (kept_rules, record_if_found-Keeps) depth 8

  acknowledge-Keeps :
      (request : GameEndRequest) (result : Option String) → Keeps p Q (acknowledge request result)
  unfolding acknowledge
  acknowledge-Keeps request none = search kept_rules
  acknowledge-Keeps request (some result) = search (kept_rules, write_audit_event-Keeps) depth 8

  pub report_game_end-Keeps : (request : GameEndRequest) → Keeps p Q (report_game_end request)
  unfolding report_game_end
  report_game_end-Keeps request =
      search (kept_rules, end_game-Keeps, not_acknowledged-Keeps, acknowledge-Keeps) depth 8

  pub create_resume_token-Keeps :
      (request : ResumeTokenRequest) → Keeps p Q (create_resume_token request)
  unfolding create_resume_token
  create_resume_token-Keeps request = search (kept_rules, get_redis_client-Keeps) depth 12

  unpack-Keeps : (fields : List String) → Keeps p Q (unpack fields)
  unfolding unpack
  unpack-Keeps (a ∷ b ∷ c ∷ []) = Keeps-pure _
  unpack-Keeps [] = Keeps-raise _
  unpack-Keeps (a ∷ []) = Keeps-raise _
  unpack-Keeps (a ∷ b ∷ []) = Keeps-raise _
  unpack-Keeps (a ∷ b ∷ c ∷ d ∷ rest) = Keeps-raise _

  resolve_value-Keeps : (value : Option String) → Keeps p Q (resolve_value value)
  resolve_value-Keeps none = Keeps-pure _
  resolve_value-Keeps (some value) = Keeps-if _ _ _ (Keeps-pure _) (unpack-Keeps (split b':' value))

  pub resolve_resume_token-Keeps : (token : String) → Keeps p Q (resolve_resume_token token)
  unfolding resolve_resume_token
  resolve_resume_token-Keeps token =
      search (kept_rules, get_redis_client-Keeps, resolve_value-Keeps) depth 12
