-- ===== src/Auth/Session.antt =====
-- What a session starts with (services/api/auth/jwt_routes.py).
use secure_chess.Prelude.{
  ℕ, suc, ◌+◌, ◌<◌, ◌≡◌, ◌∙◌, refl, String, false, none, some, List, [], ◌∷◌, ◌==◌, ◌||◌, str_eq,
  eq_refl, exists, add_row, exists-weaken, find_first-add_row_new, inl, inr, Bool-cases, arith,
}
use secure_chess.Exec.{ok}
use secure_chess.Exec.Laws.{Result-cases}
use secure_chess.Platform.{Platform, World}
use secure_chess.Platform.Tables.{User, RefreshToken, Database, Json, text}
use secure_chess.Platform.Calls.{connect, execute, utc_now}
use secure_chess.UserHelpers.{Request}
use secure_chess.RateLimit.{get_client_ip}
use secure_chess.Jwt.{create_access_token, days}
use secure_chess.Jwt.Laws.{JwtLaws}
use secure_chess.Jwt.Issue.{create_access_token_lem, create_refresh_token_lem}
use secure_chess.Sql.{insert_refresh_token, is_active, select_active}
use secure_chess.Audit.AppendOnly.{write_audit_event_lem, write_audit_event_others}
use secure_chess.Auth.{SignInReply, start_session}

-- a fresh token that was inserted is the active one of its hash until it expires
pub select_active-insert_refresh_token :
    (row : RefreshToken) (now : ℕ) (db db' : Database)
    → insert_refresh_token row db ≡ ok db'
    → row.revoked_date ≡ none
    → now < row.expiration_date
    → select_active row.token_hash now db' ≡ some row
unfolding insert_refresh_token select_active
select_active-insert_refresh_token row now db db' h fresh later =
    let same =
      λ (t : RefreshToken). t.token_id == row.token_id || str_eq t.token_hash row.token_hash in
    elim (Bool-cases (exists same db.refresh_tokens)) [
      | inl taken ↦ absurd (ground arith)
      | inr free ↦
          let new : db' ≡ record db { refresh_tokens = add_row db.refresh_tokens row } =
            ground arith in
          let mine = eq_refl row.token_hash in
          let wider =
            exists-weaken (is_active row.token_hash now) same (λ t k. ground arith)
              db.refresh_tokens in
          let absent : exists (is_active row.token_hash now) db.refresh_tokens ≡ false =
            ground arith in
          rw new (
            find_first-add_row_new (is_active row.token_hash now) db.refresh_tokens row absent
              (ground arith))
    ]

select_active_same :
    (hash : String) (now : ℕ) (db db' : Database)
    → db'.refresh_tokens ≡ db.refresh_tokens
    → select_active hash now db' ≡ select_active hash now db
unfolding select_active
select_active_same hash now db db' same = rw same refl

module _ {p : Platform} where
  -- the row of the refresh token of a session that starts at `w`
  abbrev pub token_row : User → String → World p → RefreshToken
  token_row user token w = record {
    token_id = p.random_uuid w.draws;
    user_id = user.user_id;
    token_hash = p.sha256 token;
    expiration_date = w.clock + days p.jwt_days;
    revoked_date = none;
    created_at = w.clock;
  }

module _ {p : Platform} (l : JwtLaws p) where
  -- A session that starts has an access token that was issued to the user at that moment, and a
  -- refresh token whose row, owned by the user, is the active one of its hash, at every time
  -- before its expiration REFRESH_TOKEN_DAYS days later.
  pub start_session-ok :
      (user : User) (request : Request) (w v : World p) (reply : SignInReply) (now : ℕ)
      → start_session user request w ≡ (ok reply, v)
      → now < w.clock + days p.jwt_days
      → (create_access_token (p.str_uuid user.user_id) w ≡ (ok reply.access_token, w))
        × (select_active (p.sha256 reply.refresh_token) now v.db
            ≡ some (token_row user reply.refresh_token w))
  unfolding start_session connect execute utc_now
  start_session-ok user request w v reply now h later =
      let (access, a, _) = create_access_token_lem l (p.str_uuid user.user_id) w w (omega arith) in
      let (token, b, _) = create_refresh_token_lem l (p.str_uuid user.user_id) w w (omega arith) in
      let row = token_row user token w in
      elim (Bool-cases (p.db_fault w.connections)) [
        | inl down ↦ absurd (ground arith)
        | inr up ↦ elim (Result-cases (insert_refresh_token row w.db)) [
          | inr (x, i) ↦ absurd (ground arith)
          | inl (db, i) ↦
              let u : World p = record w {
                db = db;
                draws = suc w.draws;
                connections = suc w.connections;
              } in
              let metadata : List (String × Json) = ("username", text user.username) ∷ [] in
              let id = some (p.str_uuid user.user_id) in
              let done =
                write_audit_event_lem "login" id (some (get_client_ip request)) metadata u in
              let others =
                write_audit_event_others "login" id (some (get_client_ip request)) metadata u in
              let answered : reply.access_token ≡ access = ground arith in
              let given : reply.refresh_token ≡ token = ground arith in
              let same : v.db.refresh_tokens ≡ db.refresh_tokens = ground arith in
              let active = select_active-insert_refresh_token row now w.db db i refl later in
              let seen = select_active_same row.token_hash now db v.db same in
              (ground arith, rw given (seen ∙ active))
        ]
      ]
