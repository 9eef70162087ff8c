-- ===== src/Auth/Rotation.antt =====
-- `refresh` and `logout` of services/api/auth/jwt_routes.py: what they do to the token.
use secure_chess.Prelude.{
  ℕ, suc, String, ◌≡◌, refl, true, false, some, exists, find_first-exists, exists-weaken, inl, inr,
  Bool-cases, Option-cases, arith,
}
use secure_chess.Exec.{ok, err, is_ok, Error, http, try_with}
use secure_chess.Exec.Laws.{Result-cases}
use secure_chess.Platform.{Platform, World}
use secure_chess.Platform.Tables.{RefreshToken, Database}
use secure_chess.Platform.Calls.{Act, connect, utc_now, except_psycopg_error}
use secure_chess.Jwt.{decode_token}
use secure_chess.Jwt.Keeps.{decode_token-Keeps}
use secure_chess.UserHelpers.{Request}
use secure_chess.Sql.{revoke, select_active, is_active}
use secure_chess.Auth.{RefreshReply, issue_pair, rotate, refresh_handler}
use secure_chess.Auth.Invariant.{issue_pair-Keeps}
use secure_chess.Auth.Spent.{
  IsSpent, has_hash, revoke-IsSpent, select_active-IsSpent, IsSpent-IsKept,
}

is_active-has_hash :
    (hash : String) (now : ℕ) (t : RefreshToken)
    → is_active hash now t ≡ true
    → has_hash hash t ≡ true
is_active-has_hash hash now t h = ground arith

select_active-exists :
    (hash : String) (now : ℕ) (db : Database) (t : RefreshToken)
    → select_active hash now db ≡ some t
    → exists (has_hash hash) db.refresh_tokens ≡ true
unfolding select_active
select_active-exists hash now db t e =
    exists-weaken (is_active hash now) (has_hash hash) (is_active-has_hash hash now)
      db.refresh_tokens (find_first-exists (is_active hash now) db.refresh_tokens t e)

module _ {p : Platform} where
  rotate-IsSpent :
      (sub hash : String) (w v : World p) (reply : RefreshReply)
      → rotate sub hash w ≡ (ok reply, v)
      → IsSpent hash v.db
  unfolding rotate utc_now
  rotate-IsSpent sub hash w v reply h = elim (Option-cases (select_active hash w.clock w.db)) [
    | inl missing ↦ absurd (ground arith)
    | inr (t, e) ↦
        let w1 : World p = record w { db = revoke hash w.clock w.db } in
        let spent = revoke-IsSpent hash w.clock w.db (select_active-exists hash w.clock w.db t e) in
        let kept = (issue_pair-Keeps (IsSpent-IsKept hash) sub).at w1 spent in
        let end : v ≡ (issue_pair sub w1).1 = ground arith in rw end kept
  ]

  rotate_spent :
      (sub hash : String) (w : World p)
      → IsSpent hash w.db
      → rotate sub hash w ≡ (err (http 401 "Invalid or expired refresh token"), w)
  unfolding rotate utc_now
  rotate_spent sub hash w h =
      let missing = select_active-IsSpent hash w.clock w.db h in ground arith

  module _ {A : Type 0} where
    connect-ok :
        (m : Act p A) (w v : World p) (a : A)
        → connect m w ≡ (ok a, v)
        → m (record w { connections = suc w.connections }) ≡ (ok a, v)
    unfolding connect
    connect-ok m w v a h = elim (Bool-cases (p.db_fault w.connections)) [
      | inl fault ↦ absurd (ground arith)
      | inr up ↦ elim (Result-cases (m (record w { connections = suc w.connections })).0) [
        | inl (b, e) ↦ ground arith
        | inr (x, e) ↦ absurd (ground arith)
      ]
    ]

    try_psycopg-ok :
        (m : Act p A) (e : Error) (w v : World p) (a : A)
        → try_with m (except_psycopg_error e) w ≡ (ok a, v)
        → m w ≡ (ok a, v)
    try_psycopg-ok m e w v a h = elim (Result-cases (m w).0) [
      | inl (b, f) ↦ ground arith
      | inr (x, f) ↦ absurd (ground arith)
    ]

  -- A refresh that succeeds has spent its token: the token was stored, and is revoked now.
  pub refresh_handler-IsSpent :
      (token : String) (request : Request) (w v : World p) (reply : RefreshReply)
      → refresh_handler token request w ≡ (ok reply, v)
      → IsSpent (p.sha256 token) v.db
  unfolding refresh_handler
  refresh_handler-IsSpent token request w v reply h =
      let (a, w1) = decode_token token "refresh" w in
      elim (Result-cases a) [
        | inr (x, e) ↦ absurd (ground arith)
        | inl (c, e) ↦ elim (Option-cases c.sub) [
          | inl none_sub ↦ absurd (ground arith)
          | inr (sub, f) ↦ elim (Option-cases c.jti) [
            | inl none_jti ↦ absurd (ground arith)
            | inr (jti, g) ↦
                let m = connect (rotate sub (p.sha256 token)) in
                let done =
                  try_psycopg-ok m (http 500 "Failed to refresh token") w1 v reply (ground arith) in
                let run = connect-ok (rotate sub (p.sha256 token)) w1 v reply done in
                rotate-IsSpent sub (p.sha256 token) _ v reply run
          ]
        ]
      ]

  -- A token that is spent is refused, and the tables stay as they are.
  pub refresh_handler_spent :
      (token : String) (request : Request) (w : World p)
      → IsSpent (p.sha256 token) w.db
      → let (r, v) = refresh_handler token request w in (is_ok r ≡ false) × (v.db ≡ w.db)
  unfolding refresh_handler connect
  refresh_handler_spent token request w h =
      let (a, w1) = decode_token token "refresh" w in
      let same = (decode_token-Keeps {Q = λ db. db ≡ w.db} token "refresh").at w refl in
      elim (Result-cases a) [
        | inr (x, e) ↦ (ground arith, ground arith)
        | inl (c, e) ↦ elim (Option-cases c.sub) [
          | inl none_sub ↦ (ground arith, ground arith)
          | inr (sub, f) ↦
              let w2 : World p = record w1 { connections = suc w1.connections } in
              let refused = rotate_spent sub (p.sha256 token) w2 (rw same h) in
              (ground arith, ground arith)
        ]
      ]
