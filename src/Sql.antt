-- ===== src/Sql.antt =====
-- The SQL statements of the services, on the tables of infra/tables.sql with their constraints:
-- PRIMARY KEY, UNIQUE, REFERENCES, CHECK and the range of INT.
pub mod WellFormed
pub mod Keeps
use secure_chess.Prelude.{
  ℕ, String, Bool, true, false, not, Option, none, some, List, ltb, ◌==◌, str_eq, ◌||◌, ◌&&◌,
  find_first, exists, add_row, update_where, if◌then◌else◌,
}
use secure_chess.Exec.{Result, ok, err, unique_violation, db_error}
use secure_chess.Platform.Tables.{User, RefreshToken, Match, Game, AuditLog, Database}

-- the bound of INT
abbrev pub int_max : ℕ
int_max = 2147483647

abbrev pub has_user : ℕ → List User → Bool
has_user id users = exists (λ (u : User). u.user_id == id) users

unfoldable pub insert_user : User → Database → Result Database
insert_user row db =
    if exists
      (λ (u : User).
        u.user_id == row.user_id || str_eq u.username row.username || str_eq u.email row.email)
      db.users
    then err unique_violation
    else ok (record db { users = add_row db.users row })

-- SELECT … FROM users WHERE username = %s
unfoldable pub select_user : String → Database → Option User
select_user username db = find_first (λ (u : User). str_eq u.username username) db.users

unfoldable pub insert_refresh_token : RefreshToken → Database → Result Database
insert_refresh_token row db =
    if exists
      (λ (t : RefreshToken). t.token_id == row.token_id || str_eq t.token_hash row.token_hash)
      db.refresh_tokens
    then err unique_violation
    else if not (has_user row.user_id db.users)
    then err db_error
    else ok (record db { refresh_tokens = add_row db.refresh_tokens row })

-- the WHERE clause of the refresh: the hash matches, not revoked, and not expired at `now`
abbrev pub is_active : String → ℕ → RefreshToken → Bool
is_active token_hash now t =
    str_eq t.token_hash token_hash
    && elim t.revoked_date [ none ↦ true | some _ ↦ false ]
    && ltb now t.expiration_date

unfoldable pub select_active : String → ℕ → Database → Option RefreshToken
select_active token_hash now db = find_first (is_active token_hash now) db.refresh_tokens

-- UPDATE refresh_tokens SET revoked_date = NOW() WHERE token_hash = %s
unfoldable pub revoke : String → ℕ → Database → Database
revoke token_hash now db = record db {
  refresh_tokens =
      update_where (λ (t : RefreshToken). str_eq t.token_hash token_hash)
        (λ t. record t { revoked_date = some now }) db.refresh_tokens;
}

unfoldable pub insert_match : Match → Database → Result Database
insert_match row db =
    if row.white_user_id == row.black_user_id || ltb int_max row.increment
    then err db_error
    else if exists (λ (m : Match). m.match_id == row.match_id) db.matches
    then err unique_violation
    else if not (has_user row.white_user_id db.users && has_user row.black_user_id db.users)
    then err db_error
    else ok (record db { matches = add_row db.matches row })

-- SELECT … FROM matches WHERE match_id = %s
unfoldable pub select_match : ℕ → Database → Option Match
select_match match_id db = find_first (λ (m : Match). m.match_id == match_id) db.matches

-- UPDATE matches SET status = 'completed' WHERE match_id = %s
unfoldable pub complete_match : ℕ → Database → Database
complete_match match_id db = record db {
  matches =
      update_where (λ (m : Match). m.match_id == match_id) (λ m. record m { status = "completed" })
        db.matches;
}

abbrev pub has_match : ℕ → List Match → Bool
has_match id matches = exists (λ (m : Match). m.match_id == id) matches

unfoldable pub insert_game : Game → Database → Result Database
insert_game row db =
    if row.white_user_id == row.black_user_id || ltb int_max row.moves
    then err db_error
    else if exists (λ (g : Game). g.game_id == row.game_id) db.games
    then err unique_violation
    else if not (
        has_user row.white_user_id db.users
        && has_user row.black_user_id db.users
        && has_match row.match_id db.matches)
    then err db_error
    else ok (record db { games = add_row db.games row })

-- `user_id` may be NULL
abbrev pub is_known : Option ℕ → List User → Bool
is_known none users = true
is_known (some id) users = has_user id users

unfoldable pub insert_audit_log : AuditLog → Database → Result Database
insert_audit_log row db =
    if exists (λ (a : AuditLog). a.audit_id == row.audit_id) db.audit_logs
    then err unique_violation
    else if not (is_known row.user_id db.users)
    then err db_error
    else ok (record db { audit_logs = add_row db.audit_logs row })
