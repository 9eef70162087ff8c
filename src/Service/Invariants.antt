-- ===== src/Service/Invariants.antt =====
-- What every sequence of calls keeps.
use secure_chess.Platform.{Platform, World}
use secure_chess.Platform.Tables.{Database}
use secure_chess.Platform.Keeps.{Keeps, Keeps-bind, Keeps-pure}
use secure_chess.RedisClient.Keeps.{get_redis_client-Keeps, close_redis_connection-Keeps}
use secure_chess.RateLimit.Keeps.{rate_limit-Keeps}
use secure_chess.Sql.WellFormed.{IsWellFormed}
use secure_chess.Sql.Keeps.{IsKept, IsWellFormed-IsKept}
use secure_chess.Auth.{signup, signin, refresh, logout}
use secure_chess.Auth.Invariant.{
  signup_handler-Keeps, signin_handler-Keeps, refresh_handler-Keeps, logout_handler-Keeps,
}
use secure_chess.Matchmaking.Invariant.{create_request-Keeps, get_ticket-Keeps}
use secure_chess.Servicer.Invariant.{
  verify_match_ticket-Keeps, report_game_end-Keeps, create_resume_token-Keeps,
  resolve_resume_token-Keeps,
}
use secure_chess.Service.{
  Call, call_startup, call_shutdown, call_signup, call_signin, call_refresh, call_logout,
  call_create_request, call_get_ticket, call_verify_match_ticket, call_report_game_end,
  call_create_resume_token, call_resolve_resume_token, serve, Step, served, waited, Steps, stop,
  more,
}

ruleset serve_rules = (
  Keeps-bind, Keeps-pure, rate_limit-Keeps, signup_handler-Keeps, signin_handler-Keeps,
  refresh_handler-Keeps, logout_handler-Keeps, create_request-Keeps, get_ticket-Keeps,
  verify_match_ticket-Keeps, report_game_end-Keeps, create_resume_token-Keeps,
  resolve_resume_token-Keeps,
)

module _ {p : Platform} {Q : Database → Type 0} (k : IsKept Q) where
  -- A call keeps every property of the tables that the statements keep.
  pub serve-Keeps : (c : Call) → Keeps p Q (serve c)
  unfolding serve signup signin refresh logout
  serve-Keeps call_startup = get_redis_client-Keeps
  serve-Keeps call_shutdown = close_redis_connection-Keeps
  serve-Keeps (call_signup body request) = search serve_rules
  serve-Keeps (call_signin body request) = search serve_rules
  serve-Keeps (call_refresh token request) = search serve_rules
  serve-Keeps (call_logout token request) = search serve_rules
  serve-Keeps (call_create_request body request) = search serve_rules
  serve-Keeps (call_get_ticket request) = search serve_rules
  serve-Keeps (call_verify_match_ticket ticket) = search serve_rules
  serve-Keeps (call_report_game_end request) = search serve_rules
  serve-Keeps (call_create_resume_token request) = search serve_rules
  serve-Keeps (call_resolve_resume_token token) = search serve_rules

  pub step_keeps : {v w : World p} → Step v w → Q v.db → Q w.db
  step_keeps (served {w = u} c) h = (serve-Keeps c).at u h
  step_keeps (waited clock redis later) h = h

  -- So do any number of them.
  pub steps_keep : {v w : World p} → Steps v w → Q v.db → Q w.db
  steps_keep stop h = h
  steps_keep (more s ss) h = steps_keep ss (step_keeps s h)

module _ {p : Platform} where
  -- The constraints of the tables are an invariant of the control plane: whatever calls come, in
  -- whatever order, whether they return or raise, and whatever Redis loses between them, tables
  -- that satisfy the constraints still do.
  pub steps-IsWellFormed : (v w : World p) → Steps v w → IsWellFormed v.db → IsWellFormed w.db
  steps-IsWellFormed v w = steps_keep IsWellFormed-IsKept
