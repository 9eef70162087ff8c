-- ===== src/Audit/AppendOnly.antt =====
-- `write_audit_event` is fire-and-forget, and adds to the log.
use secure_chess.Prelude.{
  suc, String, ◌≡◌, refl, ◌⊎◌, inl, inr, Option, none, some, List, add_row, Bool-cases, arith,
}
use secure_chess.Exec.{ok}
use secure_chess.Exec.Laws.{Result-cases}
use secure_chess.Platform.{Platform, World}
use secure_chess.Platform.Tables.{Json, AuditLog, Database}
use secure_chess.Platform.Calls.{connect, execute, utc_now, uuid4}
use secure_chess.Sql.{insert_audit_log}
use secure_chess.Audit.{insert_event, write_audit_event, nullable_uuid}

inserted :
    (row : AuditLog) (db db' : Database)
    → insert_audit_log row db ≡ ok db'
    → db' ≡ record db { audit_logs = add_row db.audit_logs row }
unfolding insert_audit_log
inserted row db db' h = ground arith

module _ {p : Platform} where
  nullable_uuid_same : (u : Option String) (w : World p) → (nullable_uuid u w).1 ≡ w
  nullable_uuid_same none w = refl
  nullable_uuid_same (some s) w = ground arith

  -- Writing an event never raises. It leaves the tables as they were, or adds at the end of
  -- `audit_logs` one row with the given type, address and metadata, and changes no other table.
  pub write_audit_event_lem :
      (event_type : String) (user_id ip_address : Option String) (metadata : List (String × Json))
      (w : World p)
      → let (r, v) = write_audit_event event_type user_id ip_address metadata w in
        (r ≡ ok tt)
        × ((v.db ≡ w.db)
            ⊎ ((row : AuditLog) × (row.event_type ≡ event_type)
                × (row.ip_address ≡ ip_address)
                × (row.metadata ≡ metadata)
                × (v.db ≡ record w.db { audit_logs = add_row w.db.audit_logs row })))
  unfolding write_audit_event insert_event connect execute utc_now uuid4
  write_audit_event_lem event_type user_id ip_address metadata w =
      let w1 : World p = record w { connections = suc w.connections } in
      let same = nullable_uuid_same user_id w1 in
      elim (Bool-cases (p.db_fault w.connections)) [
        | inl fault ↦ (ground arith, inl (ground arith))
        | inr up ↦ elim (Result-cases (nullable_uuid user_id w1).0) [
          | inr (x, e) ↦ (ground arith, inl (ground arith))
          | inl (user, e) ↦
              let row : AuditLog = record {
                audit_id = p.random_uuid w.draws;
                event_type = event_type;
                user_id = user;
                ip_address = ip_address;
                metadata = metadata;
                created_at = w.clock;
              } in
              elim (Result-cases (insert_audit_log row w.db)) [
                | inr (x, i) ↦ (ground arith, inl (ground arith))
                | inl (db, i) ↦
                    let added : db ≡ record w.db { audit_logs = add_row w.db.audit_logs row } =
                      inserted row w.db db i in
                    (ground arith, inr (row, refl, refl, refl, ground arith))
              ]
        ]
      ]

  -- So no other table changes.
  pub write_audit_event_others :
      (event_type : String) (user_id ip_address : Option String) (metadata : List (String × Json))
      (w : World p)
      → let v = (write_audit_event event_type user_id ip_address metadata w).1 in
        v.db ≡ record w.db { audit_logs = v.db.audit_logs }
  write_audit_event_others event_type user_id ip_address metadata w =
      elim (write_audit_event_lem event_type user_id ip_address metadata w).1 [
        | inl same ↦ ground arith
        | inr (row, _, _, _, added) ↦ ground arith
      ]
