-- ===== src/Audit/Keeps.antt =====
-- Writing an audit event keeps every invariant of the tables.
use secure_chess.Prelude.{String, Option, none, some, List}
use secure_chess.Platform.{Platform}
use secure_chess.Platform.Tables.{Json, Database}
use secure_chess.Platform.Keeps.{Keeps}
use secure_chess.Sql.Keeps.{IsKept, kept_rules}
use secure_chess.Audit.{insert_event, write_audit_event, nullable_uuid}

module _ {p : Platform} {Q : Database → Type 0} (k : IsKept Q) where
  nullable_uuid-Keeps : (u : Option String) → Keeps p Q (nullable_uuid u)
  nullable_uuid-Keeps none = search kept_rules
  nullable_uuid-Keeps (some s) = search kept_rules

  insert_event-Keeps :
      (event_type : String) (u ip : Option String) (metadata : List (String × Json))
      → Keeps p Q (insert_event event_type u ip metadata)
  unfolding insert_event
  insert_event-Keeps event_type u ip metadata = search (kept_rules, nullable_uuid-Keeps)

  pub write_audit_event-Keeps :
      (event_type : String) (u ip : Option String) (metadata : List (String × Json))
      → Keeps p Q (write_audit_event event_type u ip metadata)
  unfolding write_audit_event
  write_audit_event-Keeps event_type u ip metadata = search (kept_rules, insert_event-Keeps)
