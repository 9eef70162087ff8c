-- ===== src/Matchmaking.antt =====
-- services/api/matchmaking/routes.py and matchmaking_helpers.py
pub mod Invariant
pub mod Pairing
pub mod Pickup
pub mod Fifo
use secure_chess.Prelude.{
  ℕ, String, ◌++◌, Option, none, some, List, [], ◌∷◌, is_empty, ltb, str_eq, str_of, if◌then◌else◌,
}
use secure_chess.Exec.{http, value_error, pure, raise, raise_if, or_raise, try_with, ◌>>=◌, ◌>>◌}
use secure_chess.Platform.{Platform, QueueEntry}
use secure_chess.Platform.Tables.{text, number}
use secure_chess.Platform.Calls.{
  Act, utc_now, uuid4, connect, redis_call, execute, as_uuid, except_psycopg_error,
}
use secure_chess.Jwt.{create_match_ticket}
use secure_chess.UserHelpers.{Request, get_user_id}
use secure_chess.RedisClient.{get_redis_client}
use secure_chess.Sql.{insert_match}
use secure_chess.Audit.{write_audit_event}

pub record GameDetails : Type 0 where
  pub user_id_white : String
  pub user_id_black : String
  pub time_control : String
  pub increment : ℕ

-- the row of the new match, with its ids as texts
pub record MatchDetails : Type 0 where
  pub match_id : String
  pub white_user_id : String
  pub black_user_id : String
  pub time_control : String
  pub increment : ℕ

pub record MatchmakingRequestBody : Type 0 where
  pub time_control : String
  pub increment : ℕ

-- The two replies of `create_request`.
pub data MatchReply : Type 0 where
  queued : (request_id : String) (position : ℕ) (queue_key : String) → MatchReply
  match_found : (found : MatchDetails) (ticket ws_url : String) → MatchReply

abbrev pub queue_key_of : MatchmakingRequestBody → String
queue_key_of body = "mm:queue:" ++ (body.time_control ++ (":" ++ str_of body.increment))

abbrev pub ticket_key : String → String
ticket_key user_id = "mm:ticket:" ++ user_id

-- `not ticket`
abbrev pub present : Option String → Option String
present none = none
present (some s) = if is_empty s then none else some s

module _ {p : Platform} where
  -- the transaction of `create_match`
  unfoldable pub insert_new_match : GameDetails → Act p MatchDetails
  insert_new_match game_details = do
    white ← as_uuid game_details.user_id_white
    black ← as_uuid game_details.user_id_black
    match_id ← uuid4
    now ← utc_now
    execute (
        insert_match (record {
          match_id = match_id;
          white_user_id = white;
          black_user_id = black;
          time_control = game_details.time_control;
          increment = game_details.increment;
          status = "pending";
          created_at = now;
        }))
    pure (record {
      match_id = p.str_uuid match_id;
      white_user_id = p.str_uuid white;
      black_user_id = p.str_uuid black;
      time_control = game_details.time_control;
      increment = game_details.increment;
    })

  unfoldable pub create_match : GameDetails → Act p MatchDetails
  create_match game_details = do
    raise_if (str_eq game_details.user_id_white game_details.user_id_black)
        (http 400 "Cannot make match with 2 of the same players")
    try_with (connect (insert_new_match game_details))
        (except_psycopg_error (http 500 "Server unable to create match"))

  -- `try: … except Exception: raise HTTPException(503, …)`
  abbrev pub or_unavailable : {A : Type 0} → Act p A → Act p A
  or_unavailable m = try_with m (λ _. raise (http 503 "Matchmaking queue unavailable"))

  -- RPUSH of the request, and the length of the queue after it
  unfoldable pub enqueue : String → QueueEntry → Act p ℕ
  enqueue queue_key payload = or_unavailable do
    redis_call p (p.redis.rpush queue_key (p.dumps payload))
    redis_call p (p.redis.llen queue_key)

  -- the reply after a pop of fewer than two
  unfoldable pub still_queued : String → String → Act p MatchReply
  still_queued request_id queue_key = do
    position ← redis_call p (p.redis.llen queue_key)
    pure (queued request_id position queue_key)

  -- the match of the two players who were popped
  unfoldable pub pair : MatchmakingRequestBody → String → QueueEntry → QueueEntry → Act p MatchReply
  pair body user_id p1 p2 = do
    found ← create_match (record {
      user_id_white = p1.user_id;
      user_id_black = p2.user_id;
      time_control = body.time_control;
      increment = body.increment;
    })
    write_audit_event "match_start" none none (
        ("match_id", text found.match_id)
        ∷ ("white_user_id", text found.white_user_id)
        ∷ ("black_user_id", text found.black_user_id)
        ∷ ("time_control", text body.time_control)
        ∷ ("increment", number body.increment)
        ∷ [])
    match_ticket ← create_match_ticket user_id found.match_id
    let other_user_id = if str_eq p1.user_id user_id then p2.user_id else p1.user_id
    other_ticket ← create_match_ticket other_user_id found.match_id
    redis_call p (p.redis.set (ticket_key other_user_id) other_ticket 90)
    pure (match_found found match_ticket (p.ws_base_url ++ "/ws"))

  -- what follows the pop
  unfoldable pub after_pop :
      MatchmakingRequestBody → String → String → Option (List String) → Act p MatchReply
  after_pop body user_id request_id (some (p1_raw ∷ p2_raw ∷ _)) = do
    p1 ← or_raise (p.loads p1_raw) (value_error "JSON")
    p2 ← or_raise (p.loads p2_raw) (value_error "JSON")
    pair body user_id p1 p2
  after_pop body user_id request_id (some (player ∷ [])) = do
    redis_call p (p.redis.lpush (queue_key_of body) player)
    still_queued request_id (queue_key_of body)
  after_pop body user_id request_id _ = still_queued request_id (queue_key_of body)

  unfoldable pub create_request : MatchmakingRequestBody → Request → Act p MatchReply
  create_request body request = do
    get_redis_client
    user_id ← get_user_id request
    request_id ← uuid4
    now ← utc_now
    let queue_key = queue_key_of body
    position ← enqueue queue_key (record {
      request_id = p.str_uuid request_id;
      user_id = user_id;
      time_control = body.time_control;
      increment = body.increment;
      created_at = now;
    })
    if ltb position 2 then pure (queued (p.str_uuid request_id) position queue_key) else do
      players ← or_unavailable (redis_call p (p.redis.lpop queue_key 2))
      after_pop body user_id (p.str_uuid request_id) players

  unfoldable pub get_ticket : Request → Act p String
  get_ticket request = do
    get_redis_client
    user_id ← get_user_id request
    reply ← redis_call p (p.redis.get (ticket_key user_id))
    ticket ← or_raise (present reply) (http 404 "No ticket found — match may not be ready yet")
    redis_call p (p.redis.delete (ticket_key user_id))
    pure ticket
