-- ===== src/Auth/Spent.antt =====
-- A refresh token that was used or revoked (services/api/auth/jwt_routes.py) stays refused.
use secure_chess.Prelude.{
  ℕ, String, ◌≡◌, ◌∙◌, refl, Bool, true, false, none, some, str_eq, eq_iff, ◌&&◌, ◌||◌, ◌==◌,
  exists, All, add_row, exists-add_row, exists-update_where, exists-weaken, find_first-fails,
  All-add_row, All-map, All-update_where, All-update_where_becomes, inl, inr, Bool-cases, arith,
}
use secure_chess.Exec.{ok}
use secure_chess.Platform.Tables.{RefreshToken, Database}
use secure_chess.Sql.{
  insert_user, insert_refresh_token, insert_match, insert_game, insert_audit_log, revoke,
  complete_match, select_active,
}
use secure_chess.Sql.Keeps.{IsKept}

-- whether the row is a token of that hash which was not revoked
abbrev pub is_usable : String → RefreshToken → Bool
is_usable token_hash t =
    str_eq t.token_hash token_hash && elim t.revoked_date [ none ↦ true | some _ ↦ false ]

abbrev pub has_hash : String → RefreshToken → Bool
has_hash token_hash t = str_eq t.token_hash token_hash

-- there is a token of that hash, and all of that hash are revoked
abbrev pub IsSpent : String → Database → Type 0
IsSpent token_hash db =
    (exists (has_hash token_hash) db.refresh_tokens ≡ true)
    × All (λ t. is_usable token_hash t ≡ false) db.refresh_tokens

module _ (token_hash : String) where
  revoked_row :
      (t : RefreshToken) (now : ℕ)
      → is_usable token_hash (record t { revoked_date = some now }) ≡ false
  revoked_row t now = ground arith

  insert_refresh_token-IsSpent :
      (row : RefreshToken) (db db' : Database)
      → IsSpent token_hash db
      → insert_refresh_token row db ≡ ok db'
      → IsSpent token_hash db'
  unfolding insert_refresh_token
  insert_refresh_token-IsSpent row db db' (e, h) i =
      let same =
        λ (t : RefreshToken). t.token_id == row.token_id || str_eq t.token_hash row.token_hash in
      elim (Bool-cases (exists same db.refresh_tokens)) [
        | inl taken ↦ absurd (ground arith)
        | inr free ↦
            let new : db' ≡ record db { refresh_tokens = add_row db.refresh_tokens row } =
              ground arith in
            elim (Bool-cases (str_eq row.token_hash token_hash)) [
              | inl match ↦
                  let hash = (eq_iff row.token_hash token_hash).0 match in
                  let clash =
                    exists-weaken (has_hash token_hash) same (λ t k. ground (arith, hash))
                      db.refresh_tokens e in
                  absurd (ground arith)
              | inr other ↦ rw new (
                rw (exists-add_row, e) refl,
                All-add_row _ db.refresh_tokens row h (ground arith),
              )
            ]
      ]

  pub revoke-IsSpent :
      (now : ℕ) (db : Database)
      → exists (has_hash token_hash) db.refresh_tokens ≡ true
      → IsSpent token_hash (revoke token_hash now db)
  unfolding revoke
  revoke-IsSpent now db e = (
    exists-update_where (has_hash token_hash) _ _ (λ t. refl) db.refresh_tokens ∙ e,
    All-update_where_becomes _ _ _ (λ t _. revoked_row t now) (λ t h. ground arith)
        db.refresh_tokens,
  )

  pub select_active-IsSpent :
      (now : ℕ) (db : Database) → IsSpent token_hash db → select_active token_hash now db ≡ none
  unfolding select_active
  select_active-IsSpent now db (e, h) =
      find_first-fails _ db.refresh_tokens (All-map _ _ (λ t k. ground arith) db.refresh_tokens h)

  pub IsSpent-IsKept : IsKept (IsSpent token_hash)
  unfolding insert_user insert_match insert_game insert_audit_log revoke complete_match
  IsSpent-IsKept = record {
    by_insert_user = λ row db db' h i.
        (let same : db'.refresh_tokens ≡ db.refresh_tokens = ground arith in rw same h);
    by_insert_refresh_token = insert_refresh_token-IsSpent;
    by_insert_match = λ row db db' h i.
        (let same : db'.refresh_tokens ≡ db.refresh_tokens = ground arith in rw same h);
    by_insert_game = λ row db db' h i.
        (let same : db'.refresh_tokens ≡ db.refresh_tokens = ground arith in rw same h);
    by_insert_audit_log = λ row db db' h i.
        (let same : db'.refresh_tokens ≡ db.refresh_tokens = ground arith in rw same h);
    by_revoke = λ hash now db h. (
      exists-update_where (has_hash token_hash) _ _ (λ t. refl) db.refresh_tokens ∙ h.0,
      All-update_where _ _ _ (λ t k. revoked_row t now) db.refresh_tokens h.1,
    );
    by_complete_match = λ match_id db h. h;
  }
