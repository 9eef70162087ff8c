-- ===== src/Auth/Renewal.antt =====
-- That a refresh with an active token succeeds (services/api/auth/jwt_routes.py).
use secure_chess.Prelude.{
  ℕ, suc, ◌<◌, ◌≡◌, ◌∙◌, refl, String, Bool, true, false, none, some, ◌==◌, ◌||◌, str_eq, exists,
  add_row, exists-update_where, arith,
}
use secure_chess.Exec.{ok}
use secure_chess.Platform.{Platform, World, Claims}
use secure_chess.Platform.Tables.{RefreshToken, Database}
use secure_chess.Platform.Calls.{connect, execute, utc_now}
use secure_chess.UserHelpers.{Request}
use secure_chess.Jwt.{create_access_token, create_refresh_token, decode_token}
use secure_chess.Sql.{insert_refresh_token, revoke, select_active, has_user}
use secure_chess.Auth.{issue_pair, rotate, refresh_handler}
use secure_chess.Auth.Session.{select_active-insert_refresh_token}

-- whether a row has the id or the hash
abbrev pub has_id_or_hash : ℕ → String → RefreshToken → Bool
has_id_or_hash id hash t = t.token_id == id || str_eq t.token_hash hash

inserted :
    (row : RefreshToken) (db : Database)
    → exists (has_id_or_hash row.token_id row.token_hash) db.refresh_tokens ≡ false
    → has_user row.user_id db.users ≡ true
    → insert_refresh_token row db
      ≡ ok (record db { refresh_tokens = add_row db.refresh_tokens row })
unfolding insert_refresh_token
inserted row db free known = ground arith

revoked_free :
    (hash : String) (now id : ℕ) (new : String) (db : Database)
    → exists (has_id_or_hash id new) db.refresh_tokens ≡ false
    → exists (has_id_or_hash id new) (revoke hash now db).refresh_tokens ≡ false
unfolding revoke
revoked_free hash now id new db free =
    exists-update_where (has_id_or_hash id new) _ _ (λ t. refl) db.refresh_tokens ∙ free

module _ {p : Platform} where
  create_access_token-state :
      (sub : String) (w v : World p)
      → v.clock ≡ w.clock
      → create_access_token sub v ≡ ((create_access_token sub w).0, v)
  unfolding create_access_token
  create_access_token-state sub w v same = ground arith

  create_refresh_token-state :
      (sub : String) (w v : World p)
      → v.clock ≡ w.clock
      → v.draws ≡ w.draws
      → (create_refresh_token sub v).0 ≡ (create_refresh_token sub w).0
  unfolding create_refresh_token
  create_refresh_token-state sub w v same draws = ground arith

  create_refresh_token-rest :
      (sub : String) (w v u : World p) (a : String × ℕ × ℕ)
      → create_refresh_token sub w ≡ (ok a, u)
      → (create_refresh_token sub v).1 ≡ record v { draws = suc v.draws }
  unfolding create_refresh_token
  create_refresh_token-rest sub w v u a h = ground arith

  -- A refresh with a token that decodes, whose row is active, succeeds while the database is up,
  -- the tokens can be issued, their owner exists, and the id and hash of the new refresh token are
  -- new. It replies with the tokens that were issued, and the new refresh token is active from then
  -- until its expiration date.
  pub refresh_handler-ok :
      (token sub jti access new : String) (c : Claims) (t : RefreshToken)
      (id user expiration now : ℕ) (request : Request) (w u : World p)
      → decode_token token "refresh" w ≡ (ok c, w)
      → c.sub ≡ some sub
      → c.jti ≡ some jti
      → p.db_fault w.connections ≡ false
      → select_active (p.sha256 token) w.clock w.db ≡ some t
      → create_access_token sub w ≡ (ok access, w)
      → create_refresh_token sub w ≡ (ok (new, id, expiration), u)
      → p.uuid_of sub ≡ some user
      → has_user user w.db.users ≡ true
      → exists (has_id_or_hash id (p.sha256 new)) w.db.refresh_tokens ≡ false
      → now < expiration
      → let (r, v) = refresh_handler token request w in
        (r ≡ ok (record { access_token = access; refresh_token = new }))
        × (select_active (p.sha256 new) now v.db
            ≡ some (record {
              token_id = id;
              user_id = user;
              token_hash = p.sha256 new;
              expiration_date = expiration;
              revoked_date = none;
              created_at = w.clock;
            }))
  unfolding refresh_handler rotate issue_pair connect execute utc_now revoke
  refresh_handler-ok token sub jti access new c t id user expiration now request w u decoded e f up
        active a b owner known free later =
      let row : RefreshToken = record {
        token_id = id;
        user_id = user;
        token_hash = p.sha256 new;
        expiration_date = expiration;
        revoked_date = none;
        created_at = w.clock;
      } in
      let db = revoke (p.sha256 token) w.clock w.db in
      let w1 : World p = record w { db = db; connections = suc w.connections } in
      let users : db.users ≡ w.db.users = ground arith in
      let stored =
        inserted row db (revoked_free (p.sha256 token) w.clock id (p.sha256 new) w.db free)
          (rw users known) in
      let seen = select_active-insert_refresh_token row now db _ stored refl later in
      let a1 = create_access_token-state sub w w1 refl in
      let b1 = create_refresh_token-state sub w w1 refl refl in
      let b2 = create_refresh_token-rest sub w w1 u (new, id, expiration) b in
      (ground arith, ground arith)
