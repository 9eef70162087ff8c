-- ===== src/Audit.antt =====
-- services/api/utils/audit.py
pub mod AppendOnly
pub mod Keeps
use secure_chess.Prelude.{ℕ, String, Option, none, some, List}
use secure_chess.Exec.{Exec, ok, err, db_error, pure, try_with, ◌>>=◌, ◌>>◌}
use secure_chess.Platform.{Platform, World}
use secure_chess.Platform.Tables.{AuditLog, Json}
use secure_chess.Platform.Calls.{Act, utc_now, uuid4, connect, execute, as_uuid}
use secure_chess.Sql.{insert_audit_log}

module _ {p : Platform} where
  abbrev pub nullable_uuid : Option String → Act p (Option ℕ)
  nullable_uuid none = pure none
  nullable_uuid (some s) = do id ← as_uuid s; pure (some id)

  -- the transaction in the `try`
  unfoldable pub insert_event :
      String → Option String → Option String → List (String × Json) → Act p Unit
  insert_event event_type user_id ip_address metadata = connect do
    user ← nullable_uuid user_id
    audit_id ← uuid4
    now ← utc_now
    execute (
        insert_audit_log (record {
          audit_id = audit_id;
          event_type = event_type;
          user_id = user;
          ip_address = ip_address;
          metadata = metadata;
          created_at = now;
        }))

  -- Any exception is printed and forgotten.
  unfoldable pub write_audit_event :
      String → Option String → Option String → List (String × Json) → Act p Unit
  write_audit_event event_type user_id ip_address metadata =
      try_with (insert_event event_type user_id ip_address metadata) (λ _. pure tt)
