-- ===== src/Platform/Tables.antt =====
-- The tables of infra/tables.sql and of the audit migration, as lists of rows in order of insertion.
-- Times are microseconds of UTC since 1970; a UUID is its 128-bit number.
use secure_chess.Prelude.{ℕ, String, Option, List}

pub record User : Type 0 where
  pub user_id : ℕ
  pub username : String
  pub email : String
  pub password_hash : String
  pub created_at : ℕ

pub record RefreshToken : Type 0 where
  pub token_id : ℕ
  pub user_id : ℕ
  pub token_hash : String
  pub expiration_date : ℕ
  pub revoked_date : Option ℕ
  pub created_at : ℕ

pub record Match : Type 0 where
  pub match_id : ℕ
  pub white_user_id : ℕ
  pub black_user_id : ℕ
  pub time_control : String
  pub increment : ℕ
  pub status : String
  pub created_at : ℕ

pub record Game : Type 0 where
  pub game_id : ℕ
  pub match_id : ℕ
  pub white_user_id : ℕ
  pub black_user_id : ℕ
  pub started_at : ℕ
  pub ended_at : ℕ
  pub result : String
  pub moves : ℕ
  pub time_control : String
  pub pgn : String

-- the values of `metadata`
pub data Json : Type 0 where
  text : String → Json
  number : ℕ → Json
  null : Json

pub record AuditLog : Type 0 where
  pub audit_id : ℕ
  pub event_type : String
  pub user_id : Option ℕ
  pub ip_address : Option String
  pub metadata : List (String × Json)
  pub created_at : ℕ

pub record Database : Type 0 where
  pub users : List User
  pub refresh_tokens : List RefreshToken
  pub matches : List Match
  pub games : List Game
  pub audit_logs : List AuditLog
