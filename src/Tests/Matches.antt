-- ===== src/Tests/Matches.antt =====
-- The theorems on matches, tickets and games, with the players u (Ann) and uu (Bob).
use secure_chess.Prelude.{
  ℕ, suc, ◌+◌, ◌≡◌, refl, ◌⊎◌, ◌++◌, String, Bool, true, false, Option, some, none, [], ◌∷◌, str_eq,
  add_row, if◌then◌else◌, arith, List, has_char,
}
use secure_chess.Exec.{Result, ok, err, value_error}
use secure_chess.Platform.{Platform, World, QueueEntry}
use secure_chess.Platform.Tables.{User, AuditLog}
use secure_chess.Jwt.{create_match_ticket, create_access_token}
use secure_chess.Matchmaking.{
  GameDetails, MatchDetails, MatchmakingRequestBody, MatchReply, match_found, ticket_key,
  create_match, pair, get_ticket, present,
}
use secure_chess.Matchmaking.Pairing.{
  create_match_lem, pair_lem, match_of, details_of, other_of, CreateEnds,
}
use secure_chess.Servicer.{
  GameEndRequest, ResumeTokenRequest, report_game_end, create_resume_token, resolve_resume_token,
  invalid_token, resume_key,
}
use secure_chess.Servicer.GameEnd.{report_game_end_lem, Recorded}
use secure_chess.Servicer.Resume.{resume_token_once, resume_token_colon}
use secure_chess.Audit.{write_audit_event}
use secure_chess.Audit.AppendOnly.{write_audit_event_lem}
use secure_chess.RedisClient.{get_redis_client, is_missing}
use secure_chess.RedisClient.Client.{get_redis_client_retry}
use secure_chess.Sample.Store.{keys_api, text}
use secure_chess.Sample.Texts.{text_laws}
use secure_chess.Sample.Values.{sample, start, no_rows}
use secure_chess.Tests.Scene.{value_or}

abbrev user : ℕ → String → User
user id name = record {
  user_id = id;
  username = name;
  email = name;
  password_hash = "#";
  created_at = 0;
}

-- two players, and a match 0 between them
abbrev players : World sample
players = record start {
  db = record no_rows {
    users = user 1 "ann" ∷ user 2 "bob" ∷ [];
    matches =
        record {
          match_id = 0;
          white_user_id = 1;
          black_user_id = 2;
          time_control = "blitz";
          increment = 2;
          status = "pending";
          created_at = 0;
        }
        ∷ [];
  };
  draws = 5;
}

abbrev blitz : GameDetails
blitz = record { user_id_white = "u"; user_id_black = "uu"; time_control = "blitz"; increment = 2 }

create_match_lem_example :
    let (r, v) = create_match {p = sample} blitz players in CreateEnds blitz players r v
create_match_lem_example = create_match_lem blitz players

abbrev entry : String → QueueEntry
entry id = record {
  request_id = "";
  user_id = id;
  time_control = "blitz";
  increment = 2;
  created_at = 0;
}

abbrev body : MatchmakingRequestBody
body = record { time_control = "blitz"; increment = 2 }

paired : Result MatchReply × World sample
paired = pair body "uu" (entry "u") (entry "uu") players

abbrev reply_or : Result MatchReply → MatchReply
reply_or r =
    value_or
      (match_found
        (record {
          match_id = "";
          white_user_id = "";
          black_user_id = "";
          time_control = "";
          increment = 0;
        })
        "" "")
      r

reply : MatchReply
reply = reply_or paired.0

paired_ok : pair body "uu" (entry "u") (entry "uu") players ≡ (ok reply, paired.1)
unfolding reply paired secure_chess.RateLimit.rate_limit secure_chess.RateLimit.find_identifier
    secure_chess.Sample.Tokens.check secure_chess.Auth.signin_handler
    secure_chess.Platform.Calls.connect secure_chess.Sql.select_user secure_chess.Prelude.find_first
    secure_chess.Auth.signup_handler secure_chess.Auth.hash_password
    secure_chess.Auth.insert_new_user secure_chess.Sql.insert_user secure_chess.Prelude.exists
    secure_chess.Audit.write_audit_event secure_chess.Audit.insert_event
    secure_chess.Auth.check_password secure_chess.Auth.issue_pair secure_chess.Auth.refresh_handler
    secure_chess.Auth.reject_login secure_chess.Auth.rotate secure_chess.Auth.start_session
    secure_chess.Jwt.create_access_token secure_chess.Jwt.create_refresh_token
    secure_chess.Jwt.decode_token secure_chess.Platform.Calls.execute
    secure_chess.Platform.Calls.redis_call secure_chess.Platform.Calls.utc_now
    secure_chess.Platform.Calls.uuid4 secure_chess.Prelude.add_row secure_chess.Prelude.update_where
    secure_chess.Prelude.first_part secure_chess.Prelude.split secure_chess.Prelude.is_space
    secure_chess.Prelude.left_strip secure_chess.Prelude.right_strip secure_chess.Prelude.strip
    secure_chess.RateLimit.check_rate_limit secure_chess.RateLimit.count_request
    secure_chess.RateLimit.get_client_ip secure_chess.RateLimit.user_or_ip
    secure_chess.RedisClient.get_redis_client secure_chess.Sample.Store.find
    secure_chess.Sample.Store.without secure_chess.Sample.Tokens.sign
    secure_chess.Sample.Values.marks secure_chess.Sample.Values.marks_in
    secure_chess.Sql.insert_audit_log secure_chess.Sql.insert_refresh_token secure_chess.Sql.revoke
    secure_chess.Sql.select_active pair create_match secure_chess.Matchmaking.insert_new_match
    secure_chess.Sql.insert_match create_match_ticket
paired_ok = refl

pair_lem_example :
    (white black : ℕ) × (sample.uuid_of "u" ≡ some white)
    × (sample.uuid_of "uu" ≡ some black)
    × (let m = match_of blitz white black players in
        let found = details_of sample m in
        (ticket other_ticket : String) × (reply
          ≡ match_found found ticket ("ws://localhost:9001" ++ "/ws"))
        × (paired.1.db ≡ record players.db {
          matches = add_row players.db.matches m;
          audit_logs = paired.1.db.audit_logs;
        })
        × (t u x : World sample) × (create_match_ticket "uu" found.match_id t ≡ (ok ticket, u))
        × (create_match_ticket (other_of "uu" (entry "u") (entry "uu")) found.match_id u
            ≡ (ok other_ticket, x))
        × (paired.1 ≡ record x {
          redis =
              (keys_api.set
                (ticket_key (other_of "uu" (entry "u") (entry "uu")))
                other_ticket
                90
                x.redis).1;
        }))
pair_lem_example = pair_lem body "uu" (entry "u") (entry "uu") players paired.1 reply paired_ok

abbrev report : GameEndRequest
report = record { match_id = ""; winner_id = "u"; moves = "e2e4" ∷ "e7e5" ∷ [] }

report_game_end_lem_example :
    let (r, v) = report_game_end {p = sample} report players in
    (acknowledged : Bool) × (r ≡ ok acknowledged) × Recorded report players acknowledged v
report_game_end_lem_example = report_game_end_lem report players

abbrev seat : String → ResumeTokenRequest
seat color = record { match_id = "m"; user_id = "u"; color = color }

resume_token_once_example :
    let (token, v) = create_resume_token {p = sample} (seat "white") start in
    (token ≡ ok (sample.random_token 0))
    × ((resolve_resume_token (sample.random_token 0) v).0
        ≡ ok (record { valid = true; match_id = "m"; user_id = "u"; color = "white" }))
    × ((resolve_resume_token
          (sample.random_token 0)
          (resolve_resume_token (sample.random_token 0) v).1).0
        ≡ ok invalid_token)
unfolding text_laws has_char
resume_token_once_example =
    resume_token_once text_laws (seat "white") start refl refl (refl, refl, refl)

resume_token_colon_example :
    let v = (create_resume_token {p = sample} (seat "a:b") start).1 in
    let (r, u) = resolve_resume_token (sample.random_token 0) v in
    (r ≡ err (value_error "unpack"))
    × (text_laws.text_at u.redis (resume_key (sample.random_token 0)) ≡ none)
unfolding text_laws has_char
resume_token_colon_example =
    resume_token_colon text_laws (seat "a:b") start refl refl refl refl refl

write_audit_event_lem_example :
    let (r, v) = write_audit_event {p = sample} "login" (some "u") none [] players in
    (r ≡ ok tt)
    × ((v.db ≡ players.db)
        ⊎ ((row : AuditLog) × (row.event_type ≡ "login")
            × (row.ip_address ≡ none)
            × (row.metadata ≡ [])
            × (v.db ≡ record players.db { audit_logs = add_row players.db.audit_logs row })))
write_audit_event_lem_example =
    write_audit_event_lem {p = sample} "login" (some "u") none [] players

abbrev no_client : World sample
no_client = record start { has_client = false; redis = record { up = false; entries = [] } }

get_redis_client_retry_example :
    let (r, v) = get_redis_client {p = sample} no_client in
    ((false ≡ false) × (true ≡ true) × (v.has_client ≡ true) × (get_redis_client v ≡ (ok tt, v)))
    ⊎ ((false ≡ true) × (r ≡ err (value_error "redis_url is not found")) × (v ≡ no_client))
    ⊎ ((false ≡ false) × (true ≡ false) × (r ≡ err (value_error "Redis URL")) × (v ≡ no_client))
get_redis_client_retry_example = get_redis_client_retry {p = sample} no_client refl
