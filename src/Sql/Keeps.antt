-- ===== src/Sql/Keeps.antt =====
-- Invariants of the tables: what a property must satisfy to be kept by every statement, and the
-- statements as actions that keep it.
use secure_chess.Prelude.{ℕ, String, ◌≡◌}
use secure_chess.Exec.{ok}
use secure_chess.Platform.{Platform}
use secure_chess.Platform.Tables.{User, RefreshToken, Match, Game, AuditLog, Database}
use secure_chess.Platform.Calls.{execute, update}
use secure_chess.Platform.Keeps.{Keeps, Keeps-execute, Keeps-update, keeps_rules}
use secure_chess.Sql.{
  insert_user, insert_refresh_token, insert_match, insert_game, insert_audit_log, revoke,
  complete_match,
}
use secure_chess.Sql.WellFormed.{
  IsWellFormed, insert_user-IsWellFormed, insert_refresh_token-IsWellFormed,
  insert_match-IsWellFormed, insert_game-IsWellFormed, insert_audit_log-IsWellFormed,
  revoke-IsWellFormed, complete_match-IsWellFormed,
}

-- `Q` is kept by every statement that the services run
pub record IsKept (Q : Database → Type 0) : Type 0 where
  pub by_insert_user : (row : User) (db db' : Database) → Q db → insert_user row db ≡ ok db' → Q db'
  pub by_insert_refresh_token :
      (row : RefreshToken) (db db' : Database) → Q db → insert_refresh_token row db ≡ ok db' → Q db'
  pub by_insert_match :
      (row : Match) (db db' : Database) → Q db → insert_match row db ≡ ok db' → Q db'
  pub by_insert_game : (row : Game) (db db' : Database) → Q db → insert_game row db ≡ ok db' → Q db'
  pub by_insert_audit_log :
      (row : AuditLog) (db db' : Database) → Q db → insert_audit_log row db ≡ ok db' → Q db'
  pub by_revoke :
      (token_hash : String) (now : ℕ) (db : Database) → Q db → Q (revoke token_hash now db)
  pub by_complete_match : (match_id : ℕ) (db : Database) → Q db → Q (complete_match match_id db)

pub IsWellFormed-IsKept : IsKept IsWellFormed
IsWellFormed-IsKept = record {
  by_insert_user = λ row db db' h. insert_user-IsWellFormed db db' h row;
  by_insert_refresh_token = λ row db db' h. insert_refresh_token-IsWellFormed db db' h row;
  by_insert_match = λ row db db' h. insert_match-IsWellFormed db db' h row;
  by_insert_game = λ row db db' h. insert_game-IsWellFormed db db' h row;
  by_insert_audit_log = λ row db db' h. insert_audit_log-IsWellFormed db db' h row;
  by_revoke = λ token_hash now db h. revoke-IsWellFormed db db h token_hash now;
  by_complete_match = λ match_id db h. complete_match-IsWellFormed db db h match_id;
}

module _ {p : Platform} {Q : Database → Type 0} (k : IsKept Q) where
  pub Keeps-insert_user : (row : User) → Keeps p Q (execute (insert_user row))
  Keeps-insert_user row = Keeps-execute (insert_user row) (k.by_insert_user row)

  pub Keeps-insert_refresh_token :
      (row : RefreshToken) → Keeps p Q (execute (insert_refresh_token row))
  Keeps-insert_refresh_token row =
      Keeps-execute (insert_refresh_token row) (k.by_insert_refresh_token row)

  pub Keeps-insert_match : (row : Match) → Keeps p Q (execute (insert_match row))
  Keeps-insert_match row = Keeps-execute (insert_match row) (k.by_insert_match row)

  pub Keeps-insert_game : (row : Game) → Keeps p Q (execute (insert_game row))
  Keeps-insert_game row = Keeps-execute (insert_game row) (k.by_insert_game row)

  pub Keeps-insert_audit_log : (row : AuditLog) → Keeps p Q (execute (insert_audit_log row))
  Keeps-insert_audit_log row = Keeps-execute (insert_audit_log row) (k.by_insert_audit_log row)

  pub Keeps-revoke : (token_hash : String) (now : ℕ) → Keeps p Q (update (revoke token_hash now))
  Keeps-revoke token_hash now = Keeps-update (revoke token_hash now) (k.by_revoke token_hash now)

  pub Keeps-complete_match : (match_id : ℕ) → Keeps p Q (update (complete_match match_id))
  Keeps-complete_match match_id =
      Keeps-update (complete_match match_id) (k.by_complete_match match_id)

pub ruleset kept_rules = (
  keeps_rules, Keeps-insert_user, Keeps-insert_refresh_token, Keeps-insert_match, Keeps-insert_game,
  Keeps-insert_audit_log, Keeps-revoke, Keeps-complete_match,
)
