-- ===== src/GameServer/GrpcClient.antt =====
-- services/gameserver/src/grpc_client.cpp: the calls of the control plane, and the jobs of
-- services/gameserver/src/server.cpp that make them. The network is an argument of each call.
use secure_chess.Prelude.{String, Bool, true, false, Option, none, some, List, not, if◌then◌else◌}
use secure_chess.Exec.{pure, ◌>>=◌, ◌>>◌, try_with}
use secure_chess.Platform.{Platform}
use secure_chess.Platform.Calls.{Act}
use secure_chess.Servicer.{
  VerifyTicketResponse, ResolveTokenResponse, verify_match_ticket, report_game_end,
  create_resume_token, resolve_resume_token,
}
use secure_chess.GameServer.{
  VerifyResult, ResolveResult, Job, verify_job, resume_job, report_job, Deferred, join_verified,
  resume_resolved,
}

-- whether the request arrives, and whether its reply does
pub data Delivery : Type 0 where
  delivered request_lost reply_lost : Delivery

abbrev pub no_verified : VerifyResult
no_verified = record { valid = false; match_id = ""; player_id = "" }

abbrev pub no_resolved : ResolveResult
no_resolved = record { valid = false; match_id = ""; user_id = ""; color = "" }

abbrev pub verified_of : Option VerifyTicketResponse → VerifyResult
verified_of none = no_verified
verified_of (some r) =
    if r.valid
    then record { valid = true; match_id = r.match_id; player_id = r.player_id }
    else no_verified

abbrev pub resolved_of : Option ResolveTokenResponse → ResolveResult
resolved_of none = no_resolved
resolved_of (some r) =
    if r.valid
    then record { valid = true; match_id = r.match_id; user_id = r.user_id; color = r.color }
    else no_resolved

abbrev pub acknowledged_of : Option Bool → Bool
acknowledged_of none = false
acknowledged_of (some acknowledged) = acknowledged

abbrev pub resume_token_of : Option String → String
resume_token_of none = ""
resume_token_of (some token) = token

module _ {p : Platform} where
  -- a call of the stub: `none` if its status is not ok, as when the servicer raises
  unfoldable pub remote : {A : Type 0} → Delivery → Act p A → Act p (Option A)
  remote delivered m = try_with (do a ← m; pure (some a)) (λ _. pure none)
  remote request_lost m = pure none
  remote reply_lost m = try_with (do m; pure none) (λ _. pure none)

  unfoldable pub client_verify : Delivery → String → Act p VerifyResult
  client_verify net ticket = do
    response ← remote net (verify_match_ticket ticket)
    pure (verified_of response)

  unfoldable pub client_report : Delivery → String → String → List String → Act p Bool
  client_report net match_id winner_id moves = do
    response ←
        remote net
          (report_game_end (record { match_id = match_id; winner_id = winner_id; moves = moves }))
    pure (acknowledged_of response)

  unfoldable pub client_create : Delivery → String → String → String → Act p String
  client_create net match_id user_id color = do
    response ←
        remote net
          (create_resume_token (record { match_id = match_id; user_id = user_id; color = color }))
    pure (resume_token_of response)

  unfoldable pub client_resolve : Delivery → String → Act p ResolveResult
  client_resolve net token = do
    response ← remote net (resolve_resume_token token)
    pure (resolved_of response)

  -- the resume token of a job, for a player that is known
  abbrev pub token_if : Bool → Delivery → String → String → String → Act p String
  token_if valid net match_id user_id color =
      if not valid then pure "" else client_create net match_id user_id color

  -- A job, with the network at its two calls, and what it defers. A report defers nothing.
  unfoldable pub run_job : Delivery → Delivery → Job → Act p (Option Deferred)
  run_job net net' (verify_job id ticket color) = do
    verified ← client_verify net ticket
    token ← token_if verified.valid net' verified.match_id verified.player_id color
    pure (some (join_verified id color verified token))
  run_job net net' (resume_job id token) = do
    resolved ← client_resolve net token
    new_token ← token_if resolved.valid net' resolved.match_id resolved.user_id resolved.color
    pure (some (resume_resolved id resolved new_token))
  run_job net net' (report_job game_id winner_id moves) = do
    client_report net game_id winner_id moves
    pure none
