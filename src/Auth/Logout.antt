-- ===== src/Auth/Logout.antt =====
-- `logout` of services/api/auth/jwt_routes.py
use secure_chess.Prelude.{
  suc, String, ◌≡◌, refl, ◌⊎◌, true, false, none, some, [], exists, inl, inr, Bool-cases, arith,
}
use secure_chess.Exec.{ok, err, http}
use secure_chess.Exec.Laws.{Result-cases}
use secure_chess.Platform.{Platform, World}
use secure_chess.Platform.Calls.{connect, utc_now}
use secure_chess.Jwt.{decode_token}
use secure_chess.Jwt.Decode.{decode_token-clock}
use secure_chess.UserHelpers.{Request}
use secure_chess.RateLimit.{get_client_ip}
use secure_chess.Sql.{revoke}
use secure_chess.Audit.AppendOnly.{write_audit_event_lem, write_audit_event_others}
use secure_chess.Auth.{check_token, logout_handler}
use secure_chess.Auth.Spent.{IsSpent, has_hash, revoke-IsSpent}

module _ {p : Platform} where
  check_token_lem : (token : String) (w : World p) → check_token token w ≡ (ok tt, w)
  check_token_lem token w =
      let same = decode_token-clock token "refresh" w w refl in
      elim (Result-cases (decode_token token "refresh" w).0) [
        | inl (c, e) ↦ ground arith
        | inr (x, e) ↦ ground arith
      ]

  pub logout_handler_lem :
      (token : String) (request : Request) (w : World p)
      → let (r, v) = logout_handler token request w in
        ((p.db_fault w.connections ≡ true)
          × (r ≡ err (http 500 "Failed to revoke token"))
          × (v.db ≡ w.db))
        ⊎ ((p.db_fault w.connections ≡ false)
            × (r ≡ ok "Logged out successfully")
            × (v.db
                ≡ record (revoke (p.sha256 token) w.clock w.db) { audit_logs = v.db.audit_logs }))
  unfolding logout_handler connect utc_now revoke
  logout_handler_lem token request w =
      let checked = check_token_lem token w in
      elim (Bool-cases (p.db_fault w.connections)) [
        | inl fault ↦ inl (fault, ground arith, ground arith)
        | inr up ↦
            let w2 : World p = record w {
              connections = suc w.connections;
              db = revoke (p.sha256 token) w.clock w.db;
            } in
            let done = write_audit_event_lem "logout" none (some (get_client_ip request)) [] w2 in
            let others =
              write_audit_event_others "logout" none (some (get_client_ip request)) [] w2 in
            inr (up, ground arith, ground arith)
      ]

  -- If it succeeds, a token that was stored is spent.
  pub logout_handler-IsSpent :
      (token : String) (request : Request) (w v : World p) (reply : String)
      → exists (has_hash (p.sha256 token)) w.db.refresh_tokens ≡ true
      → logout_handler token request w ≡ (ok reply, v)
      → IsSpent (p.sha256 token) v.db
  logout_handler-IsSpent token request w v reply stored h =
      elim (logout_handler_lem token request w) [
        | inl (fault, e, same) ↦ absurd (ground arith)
        | inr (up, e, changed) ↦
            let spent = revoke-IsSpent (p.sha256 token) w.clock w.db stored in
            let end : v.db.refresh_tokens ≡ (revoke (p.sha256 token) w.clock w.db).refresh_tokens =
              ground arith in
            rw end spent
      ]
