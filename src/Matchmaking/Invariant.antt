-- ===== src/Matchmaking/Invariant.antt =====
-- No route of services/api/matchmaking/routes.py breaks an invariant of the tables.
use secure_chess.Prelude.{String, Option, none, some, List, [], ◌∷◌}
use secure_chess.Platform.{Platform, QueueEntry}
use secure_chess.Platform.Tables.{Database}
use secure_chess.Platform.Keeps.{Keeps}
use secure_chess.Jwt.Keeps.{token_rules}
use secure_chess.UserHelpers.{Request}
use secure_chess.UserHelpers.Keeps.{get_user_id-Keeps}
use secure_chess.RedisClient.Keeps.{get_redis_client-Keeps}
use secure_chess.Audit.Keeps.{write_audit_event-Keeps}
use secure_chess.Sql.Keeps.{IsKept, kept_rules}
use secure_chess.Matchmaking.{
  GameDetails, MatchmakingRequestBody, insert_new_match, create_match, enqueue, still_queued, pair,
  after_pop, create_request, get_ticket,
}

module _ {p : Platform} {Q : Database → Type 0} (k : IsKept Q) where
  insert_new_match-Keeps : (d : GameDetails) → Keeps p Q (insert_new_match d)
  unfolding insert_new_match
  insert_new_match-Keeps d = search kept_rules depth 12

  pub create_match-Keeps : (d : GameDetails) → Keeps p Q (create_match d)
  unfolding create_match
  create_match-Keeps d = search (kept_rules, insert_new_match-Keeps) depth 8

  enqueue-Keeps : (key : String) (entry : QueueEntry) → Keeps p Q (enqueue key entry)
  unfolding enqueue
  enqueue-Keeps key entry = search kept_rules depth 8

  still_queued-Keeps : (id key : String) → Keeps p Q (still_queued id key)
  unfolding still_queued
  still_queued-Keeps id key = search kept_rules depth 8

  pair-Keeps :
      (body : MatchmakingRequestBody) (user : String) (p1 p2 : QueueEntry)
      → Keeps p Q (pair body user p1 p2)
  unfolding pair
  pair-Keeps body user p1 p2 =
      search (kept_rules, token_rules, create_match-Keeps, write_audit_event-Keeps) depth 16

  after_pop-Keeps :
      (body : MatchmakingRequestBody) (user id : String) (players : Option (List String))
      → Keeps p Q (after_pop body user id players)
  unfolding after_pop
  after_pop-Keeps body user id none = still_queued-Keeps id _
  after_pop-Keeps body user id (some []) = still_queued-Keeps id _
  after_pop-Keeps body user id (some (a ∷ [])) = search (kept_rules, still_queued-Keeps) depth 8
  after_pop-Keeps body user id (some (a ∷ b ∷ rest)) = search (kept_rules, pair-Keeps) depth 8

  pub create_request-Keeps :
      (body : MatchmakingRequestBody) (request : Request) → Keeps p Q (create_request body request)
  unfolding create_request
  create_request-Keeps body request =
      search (kept_rules, get_redis_client-Keeps, get_user_id-Keeps, enqueue-Keeps, after_pop-Keeps)
        depth 20

  pub get_ticket-Keeps : (request : Request) → Keeps p Q (get_ticket request)
  unfolding get_ticket
  get_ticket-Keeps request = search (kept_rules, get_redis_client-Keeps, get_user_id-Keeps) depth 14
