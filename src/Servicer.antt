-- ===== src/Servicer.antt =====
-- services/api/rpc/servicer.py: the calls that the game server makes (proto/gamecontrol.proto).
pub mod Tickets
pub mod Resume
pub mod GameEnd
pub mod Invariant
use Prim.Native.String as S
use secure_chess.Prelude.{
  ℕ, suc, String, ◌++◌, Bool, true, false, Option, none, some, List, [], ◌∷◌, is_empty, str_eq,
  split, if◌then◌else◌,
}
use secure_chess.Exec.{
  Error, http, key_error, value_error, db_error, unique_violation, pure, raise, or_raise, try_with,
  ◌>>=◌, ◌>>◌,
}
use secure_chess.Platform.{Platform, Claims}
use secure_chess.Platform.Tables.{Match, Json, text, number, null}
use secure_chess.Platform.Calls.{
  Act, utc_now, uuid4, token_urlsafe, connect, redis_call, execute, update, select, as_uuid,
}
use secure_chess.Jwt.{decode_token}
use secure_chess.RedisClient.{get_redis_client}
use secure_chess.Sql.{select_match, insert_game, complete_match}
use secure_chess.Audit.{write_audit_event}

pub record VerifyTicketResponse : Type 0 where
  pub valid : Bool
  pub match_id : String
  pub player_id : String

pub record GameEndRequest : Type 0 where
  pub match_id : String
  pub winner_id : String
  pub moves : List String

pub record ResumeTokenRequest : Type 0 where
  pub match_id : String
  pub user_id : String
  pub color : String

pub record ResolveTokenResponse : Type 0 where
  pub valid : Bool
  pub match_id : String
  pub user_id : String
  pub color : String

abbrev pub resume_token_ttl : ℕ
resume_token_ttl = 3600

-- the messages with `valid=False`
abbrev pub invalid_ticket : VerifyTicketResponse
invalid_ticket = record { valid = false; match_id = ""; player_id = "" }

abbrev pub invalid_token : ResolveTokenResponse
invalid_token = record { valid = false; match_id = ""; user_id = ""; color = "" }

-- the `result` of a game, from the winner's id and the ids of white and black
unfoldable pub result_of : String → String → String → String
result_of winner_id white_id black_id =
    if is_empty winner_id
    then "draw"
    else if str_eq winner_id white_id
    then "white_win"
    else if str_eq winner_id black_id
    then "black_win"
    else "abandoned"

-- `" ".join(moves)`
unfoldable pub join_moves : List String → String
join_moves [] = ""
join_moves (m ∷ []) = m
join_moves (m ∷ m' ∷ moves) = m ++ (" " ++ join_moves (m' ∷ moves))

abbrev pub move_count : List String → ℕ
move_count [] = 0
move_count (m ∷ moves) = suc (move_count moves)

-- `request.winner_id or None`
abbrev pub or_none : String → Json
or_none s = if is_empty s then null else text s

-- the value of a resume token
abbrev pub resume_value : ResumeTokenRequest → String
resume_value r = r.match_id ++ S.◌∷◌ ":" (r.user_id ++ S.◌∷◌ ":" r.color)

abbrev pub resume_key : String → String
resume_key token = "resume:" ++ token

module _ {p : Platform} where
  -- `except HTTPException`
  abbrev pub except_http : {A : Type 0} → A → Error → Act p A
  except_http a (http status detail) = pure a
  except_http a e = raise e

  -- the response for the payload of a valid ticket
  unfoldable pub seat : Claims → Act p VerifyTicketResponse
  seat payload = do
    match_id ← or_raise payload.match_id (key_error "match_id")
    player_id ← or_raise payload.sub (key_error "sub")
    pure (record { valid = true; match_id = match_id; player_id = player_id })

  abbrev pub seat_or_invalid : Option Claims → Act p VerifyTicketResponse
  seat_or_invalid none = pure invalid_ticket
  seat_or_invalid (some payload) = seat payload

  unfoldable pub verify_match_ticket : String → Act p VerifyTicketResponse
  verify_match_ticket ticket = do
    payload ←
        try_with (do payload ← decode_token ticket "match_ticket"; pure (some payload))
          (except_http none)
    seat_or_invalid payload

  -- the rest of the transaction, once the match is found: the result
  unfoldable pub record_game : GameEndRequest → Match → Act p String
  record_game request row = do
    let result =
        result_of request.winner_id (p.str_uuid row.white_user_id) (p.str_uuid row.black_user_id)
    game_id ← uuid4
    now ← utc_now
    execute (
        insert_game (record {
          game_id = game_id;
          match_id = row.match_id;
          white_user_id = row.white_user_id;
          black_user_id = row.black_user_id;
          started_at = now;
          ended_at = now;
          result = result;
          moves = move_count request.moves;
          time_control = row.time_control;
          pgn = join_moves request.moves;
        }))
    update (complete_match row.match_id)
    pure result

  abbrev pub record_if_found : GameEndRequest → Option Match → Act p (Option String)
  record_if_found request none = pure none
  record_if_found request (some row) = do result ← record_game request row; pure (some result)

  -- `except psycopg.Error: return …acknowledged=False`, as `none`
  abbrev pub not_acknowledged : Error → Act p (Option String)
  not_acknowledged db_error = pure none
  not_acknowledged unique_violation = pure none
  not_acknowledged e = raise e

  -- the transaction of a report: the result, or `none` without such a match
  unfoldable pub end_game : GameEndRequest → Act p (Option String)
  end_game request = do
    match_id ← as_uuid request.match_id
    row ← select (select_match match_id)
    record_if_found request row

  unfoldable pub acknowledge : GameEndRequest → Option String → Act p Bool
  acknowledge request none = pure false
  acknowledge request (some result) = do
    write_audit_event "game_end" none none (
        ("match_id", text request.match_id)
        ∷ ("winner_id", or_none request.winner_id)
        ∷ ("result", text result)
        ∷ ("move_count", number (move_count request.moves))
        ∷ [])
    pure true

  -- the reply is `acknowledged`
  unfoldable pub report_game_end : GameEndRequest → Act p Bool
  report_game_end request = do
    result ← try_with (connect (end_game request)) not_acknowledged
    acknowledge request result

  unfoldable pub create_resume_token : ResumeTokenRequest → Act p String
  create_resume_token request = do
    token ← token_urlsafe
    get_redis_client
    redis_call p (p.redis.set (resume_key token) (resume_value request) resume_token_ttl)
    pure token

  -- `match_id, user_id, color = value.split(":")`
  unfoldable pub unpack : List String → Act p ResolveTokenResponse
  unpack (match_id ∷ user_id ∷ color ∷ []) =
      pure (record { valid = true; match_id = match_id; user_id = user_id; color = color })
  unpack _ = raise (value_error "unpack")

  abbrev pub resolve_value : Option String → Act p ResolveTokenResponse
  resolve_value none = pure invalid_token
  resolve_value (some value) =
      if is_empty value then pure invalid_token else unpack (split b':' value)

  unfoldable pub resolve_resume_token : String → Act p ResolveTokenResponse
  resolve_resume_token token = do
    get_redis_client
    value ← redis_call p (p.redis.getdel (resume_key token))
    resolve_value value
