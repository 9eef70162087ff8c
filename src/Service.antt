-- ===== src/Service.antt =====
-- The control plane as a whole: the routes of services/api/main.py and the calls of
-- services/api/rpc/servicer.py, served one after the other on the shared state.
pub mod Invariants
pub mod Spent
pub mod Accounts
use secure_chess.Prelude.{ℕ, ◌≤◌, String}
use secure_chess.Exec.{pure, ◌>>=◌, ◌>>◌}
use secure_chess.Platform.{Platform, World}
use secure_chess.Platform.Calls.{Act}
use secure_chess.UserHelpers.{Request}
use secure_chess.RedisClient.{get_redis_client, close_redis_connection}
use secure_chess.Auth.{SignupBody, SignInBody, signup, signin, refresh, logout}
use secure_chess.Matchmaking.{MatchmakingRequestBody, create_request, get_ticket}
use secure_chess.Servicer.{
  GameEndRequest, ResumeTokenRequest, verify_match_ticket, report_game_end, create_resume_token,
  resolve_resume_token,
}

-- a call of a client or of the game server, and the two ends of `lifespan`
pub data Call : Type 0 where
  call_startup call_shutdown : Call
  call_signup : SignupBody → Request → Call
  call_signin : SignInBody → Request → Call
  call_refresh call_logout : (refresh_token : String) → Request → Call
  call_create_request : MatchmakingRequestBody → Request → Call
  call_get_ticket : Request → Call
  call_verify_match_ticket : (ticket : String) → Call
  call_report_game_end : GameEndRequest → Call
  call_create_resume_token : ResumeTokenRequest → Call
  call_resolve_resume_token : (token : String) → Call

module _ {p : Platform} where
  -- the call, its reply forgotten
  unfoldable pub serve : Call → Act p Unit
  serve call_startup = get_redis_client
  serve call_shutdown = close_redis_connection
  serve (call_signup body request) = do signup body request; pure tt
  serve (call_signin body request) = do signin body request; pure tt
  serve (call_refresh token request) = do refresh token request; pure tt
  serve (call_logout token request) = do logout token request; pure tt
  serve (call_create_request body request) = do create_request body request; pure tt
  serve (call_get_ticket request) = do get_ticket request; pure tt
  serve (call_verify_match_ticket ticket) = do verify_match_ticket ticket; pure tt
  serve (call_report_game_end request) = do report_game_end request; pure tt
  serve (call_create_resume_token request) = do create_resume_token request; pure tt
  serve (call_resolve_resume_token token) = do resolve_resume_token token; pure tt

-- A step: a call is served, whether it returns or raises, or time passes and Redis drops or
-- gains keys of its own accord.
pub data Step {p : Platform} : World p → World p → Type 0 where
  served : {w : World p} → (c : Call) → Step w (serve c w).1
  waited :
      {w : World p}
      → (clock : ℕ) → (redis : p.redis.Store) → w.clock ≤ clock
      → Step w (record w { clock = clock; redis = redis })

-- any number of steps
pub data Steps {p : Platform} : World p → World p → Type 0 where
  stop : {w : World p} → Steps w w
  more : {u v w : World p} → Step u v → Steps v w → Steps u w
