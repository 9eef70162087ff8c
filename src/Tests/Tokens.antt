-- ===== src/Tests/Tokens.antt =====
-- The theorems on tokens and tickets, at tokens of the sample platform.
use Prim.Native.String as S
use Prim.Native.Char.{code}
use secure_chess.Prelude.{
  ℕ, suc, ◌+◌, ◌*◌, ◌≤◌, ◌≡◌, refl, String, is_empty, some, none, leb, true, false, arith,
  if◌then◌else◌, split_once, strip, Bool, not, ◌&&◌, is_space, NoSpace, List, [], ◌∷◌, ◌⊎◌, add_row,
}
use secure_chess.Exec.{Result, ok, err, http}
use secure_chess.Platform.{Platform, World, Claims, QueueEntry, payload}
use secure_chess.Platform.Calls.{timestamp}
use secure_chess.UserHelpers.{Request, get_user_id, bearer_of}
use secure_chess.UserHelpers.Bearer.{bearer, get_user_id-access, get_user_id-create_access_token}
use secure_chess.Jwt.{
  decode_token, create_access_token, create_refresh_token, create_match_ticket, access_payload,
  refresh_payload, days, minutes, seconds,
}
use secure_chess.Jwt.Decode.{answer, decode_token-encode, decode_token-type}
use secure_chess.Jwt.Issue.{until, create_access_token_lem, create_refresh_token_lem}
use secure_chess.Servicer.{VerifyTicketResponse, invalid_ticket, verify_match_ticket}
use secure_chess.Servicer.Tickets.{
  verify_match_ticket-create_match_ticket, verify_match_ticket-valid,
}
use secure_chess.Matchmaking.{
  get_ticket, MatchmakingRequestBody, queue_key_of, queued, create_request, pair,
}
use secure_chess.Matchmaking.Fifo.{IsQueue, entry_of, create_request-IsQueue}
use secure_chess.Matchmaking.Pickup.{get_ticket_once, no_ticket}
use secure_chess.Sample.Store.{text, list, find}
use secure_chess.Sample.Lists.{list_laws}
use secure_chess.Sample.Texts.{text_laws}
use secure_chess.Sample.Tokens.{sign}
use secure_chess.Sample.Values.{sample, sample_laws, start}

abbrev claims : Claims
claims = access_payload "u" 0 1

abbrev token_of : Result String × World sample → String
token_of (ok t, w) = t
token_of (err e, w) = ""

token : String
token = token_of (create_access_token {p = sample} "u" start)

token_is : create_access_token {p = sample} "u" start ≡ (ok token, start)
unfolding token create_access_token sign
token_is = refl

accepted : decode_token {p = sample} token "access" start ≡ (ok claims, start)
unfolding decode_token sign secure_chess.Sample.Tokens.check token create_access_token
accepted = refl

decode_token-type_example :
    (claims.type ≡ some "access")
    × (sample.decode token "secret" "HS256" 0 ≡ payload claims)
    × (start ≡ start)
decode_token-type_example = decode_token-type token "access" start start claims accepted

signed : sample.encode claims "secret" "HS256" ≡ some token
unfolding token create_access_token sign
signed = refl

-- an access token for a refresh
decode_token-encode_example :
    decode_token token "refresh" start ≡ (answer claims "refresh" 0, start)
decode_token-encode_example = decode_token-encode sample_laws claims token "refresh" start signed

create_access_token_lem_example :
    (t : String) × (create_access_token "u" start ≡ (ok t, start))
    × (decode_token t "access" start ≡ (until claims 0, start))
create_access_token_lem_example = create_access_token_lem sample_laws "u" start start (omega arith)

create_refresh_token_lem_example :
    let c = refresh_payload "" "u" 0 (days 1) in
    (t : String) × (create_refresh_token "u" start
      ≡ (ok (t, 0, days 1), record start { draws = 1 }))
    × (decode_token t "refresh" start ≡ (until c 0, start))
unfolding secure_chess.Sample.Values.marks
create_refresh_token_lem_example =
    create_refresh_token_lem sample_laws "u" start start (omega arith)

abbrev with_token : Request
with_token = record {
  forwarded_for = none;
  authorization = some (bearer token);
  client_host = none;
}

identified : get_user_id {p = sample} with_token start ≡ (ok "u", start)
unfolding get_user_id decode_token sign secure_chess.Sample.Tokens.check token create_access_token
    split_once strip secure_chess.Prelude.left_strip secure_chess.Prelude.right_strip
    secure_chess.Prelude.is_space
identified = refl

-- Bob waits in the queue when Ann makes her request.
abbrev body : MatchmakingRequestBody
body = record { time_control = ""; increment = 0 }

abbrev bobs_entry : QueueEntry
bobs_entry = record {
  request_id = "";
  user_id = "uu";
  time_control = "";
  increment = 0;
  created_at = 0;
}

abbrev waiting : World sample
waiting = record start {
  redis = record { up = true; entries = (queue_key_of body, (list ("uu" ∷ []), none)) ∷ [] };
}

identified_waiting : get_user_id {p = sample} with_token waiting ≡ (ok "u", waiting)
unfolding get_user_id decode_token sign secure_chess.Sample.Tokens.check token create_access_token
    split_once strip secure_chess.Prelude.left_strip secure_chess.Prelude.right_strip
    secure_chess.Prelude.is_space
identified_waiting = refl

create_request-IsQueue_example :
    let mine = entry_of list_laws body "u" waiting in
    let key = queue_key_of body in
    ((bobs_entry ∷ [] ≡ [])
      × (v : World sample) × (create_request body with_token waiting
          ≡ (ok (queued mine.request_id 1 key), v))
      × IsQueue list_laws key (mine ∷ []) v
      × (v.db ≡ start.db))
    ⊎ ((first second : QueueEntry) × (others : List QueueEntry) × (v : World sample) × (bobs_entry
            ∷ mine ∷ []
          ≡ first ∷ second ∷ others)
        × (create_request body with_token waiting ≡ pair body "u" first second v)
        × IsQueue list_laws key others v
        × (v.db ≡ start.db))
unfolding list_laws find secure_chess.Prelude.str_of secure_chess.Prelude.digits
    secure_chess.Prelude.digit secure_chess.Sample.Values.marks add_row
create_request-IsQueue_example =
    create_request-IsQueue list_laws body with_token "u" (bobs_entry ∷ []) waiting refl refl
      identified_waiting refl (refl, (refl, tt))

get_user_id-access_example :
    (header : String) × (some (bearer token) ≡ some header)
    × (t : String) × (bearer_of (split_once b' ' header) ≡ some t)
    × (c : Claims) × (sample.decode (strip t) "secret" "HS256" 0 ≡ payload c)
    × (c.type ≡ some "access")
    × (c.sub ≡ some "u")
    × (start ≡ start)
get_user_id-access_example = get_user_id-access with_token start start "u" identified

plain : String → Bool
plain S.[] = true
plain (S.◌∷◌ c s) = not (is_space (code c)) && plain s

plain-NoSpace : (s : String) → plain s ≡ true → NoSpace s
unfolding plain
plain-NoSpace S.[] h = tt
plain-NoSpace (S.◌∷◌ c s) h = (ground arith, plain-NoSpace s (ground arith))

token-NoSpace : NoSpace token
unfolding token create_access_token sign plain is_space
token-NoSpace = plain-NoSpace token refl

get_user_id-create_access_token_example : get_user_id with_token start ≡ (
  if leb (timestamp (0 + minutes 1) * 1000000) 0 then err (http 401 "Token Expired") else ok "u",
  start,
)
unfolding token create_access_token sign
get_user_id-create_access_token_example =
    get_user_id-create_access_token sample_laws "u" token start start with_token token_is refl
      token-NoSpace refl (omega arith)

ticket : String
ticket = token_of (create_match_ticket {p = sample} "u" "m" start)

ticket_is : create_match_ticket {p = sample} "u" "m" start ≡ (ok ticket, record start { draws = 1 })
unfolding ticket create_match_ticket sign secure_chess.Platform.Calls.uuid4
ticket_is = refl

verify_match_ticket-create_match_ticket_example : verify_match_ticket ticket start ≡ (
  ok (
      if leb (timestamp (0 + seconds 60) * 1000000) 0
      then invalid_ticket
      else record { valid = true; match_id = "m"; player_id = "u" }),
  start,
)
verify_match_ticket-create_match_ticket_example =
    verify_match_ticket-create_match_ticket sample_laws "u" "m" ticket start
      (record start { draws = 1 }) start ticket_is (omega arith)

abbrev seated : VerifyTicketResponse
seated = record { valid = true; match_id = "m"; player_id = "u" }

verified : verify_match_ticket {p = sample} ticket start ≡ (ok seated, start)
unfolding verify_match_ticket secure_chess.Servicer.seat decode_token sign
    secure_chess.Sample.Tokens.check ticket create_match_ticket secure_chess.Sample.Values.marks
verified = refl

verify_match_ticket-valid_example :
    (c : Claims) × (sample.decode ticket "secret" "HS256" 0 ≡ payload c)
    × (c.type ≡ some "match_ticket")
    × (c.match_id ≡ some "m")
    × (c.sub ≡ some "u")
verify_match_ticket-valid_example =
    verify_match_ticket-valid ticket start start seated verified refl

-- a ticket waits for the user
abbrev ticket_waits : World sample
ticket_waits = record start {
  redis = record { up = true; entries = ("mm:ticket:u", (text "T", some 90)) ∷ [] };
}

identified_there : get_user_id {p = sample} with_token ticket_waits ≡ (ok "u", ticket_waits)
unfolding get_user_id decode_token sign secure_chess.Sample.Tokens.check token create_access_token
    split_once strip secure_chess.Prelude.left_strip secure_chess.Prelude.right_strip
    secure_chess.Prelude.is_space
identified_there = refl

get_ticket_once_example :
    let (reply, v) = get_ticket {p = sample} with_token ticket_waits in
    (reply ≡ ok "T") × ((get_ticket with_token v).0 ≡ no_ticket)
unfolding text_laws secure_chess.Sample.Store.find
get_ticket_once_example =
    get_ticket_once text_laws with_token "u" ticket_waits refl refl identified_there
