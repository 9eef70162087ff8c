-- ===== src/Jwt/Issue.antt =====
-- The three kinds of token that services/api/auth/jwt_helpers.py issues, each with the answer of
-- `decode_token` at every later time.
use secure_chess.Prelude.{
  ℕ, suc, ◌+◌, ◌*◌, ◌≤◌, ◌≡◌, refl, ap, ◌∙◌, String, some, leb, eq_refl, if◌then◌else◌, arith,
}
use secure_chess.Exec.{Result, ok, err, http}
use secure_chess.Platform.{Platform, World, Claims}
use secure_chess.Platform.Calls.{timestamp}
use secure_chess.Jwt.{
  decode_token, create_access_token, create_refresh_token, create_match_ticket, access_payload,
  refresh_payload, ticket_payload, days,
}
use secure_chess.Jwt.Laws.{JwtLaws}
use secure_chess.Jwt.Decode.{answer, decode_token-encode}

-- The claims until their expiry, and 401 from then on.
abbrev pub until : Claims → ℕ → Result Claims
until c now = if leb (c.exp * 1000000) now then err (http 401 "Token Expired") else ok c

-- From its issue on, a token that is decoded as its own type is only refused for its age.
answer-eq-until :
    (c : Claims) (t : String) (issued now : ℕ)
    → c.type ≡ some t
    → c.iat ≡ timestamp issued
    → issued ≤ now
    → answer c t now ≡ until c now
answer-eq-until c t issued now e i h = rw (e, i) (ground (arith, eq_refl t))

module _ {p : Platform} (l : JwtLaws p) where
  decode_issued :
      (c : Claims) (t token : String) (issued : ℕ) (v : World p)
      → p.encode c p.jwt_secret p.jwt_algo ≡ some token
      → c.type ≡ some t
      → c.iat ≡ timestamp issued
      → issued ≤ v.clock
      → decode_token token t v ≡ (until c v.clock, v)
  decode_issued c t token issued v e ty i h =
      decode_token-encode l c token t v e
      ∙ ap {B = Result Claims × World p} (λ r. (r, v)) (answer-eq-until c t issued v.clock ty i h)

  -- `create_access_token` returns a token and changes nothing, and at every later time
  -- `decode_token(token, "access")` gives back its claims, with the user in `sub`, until
  -- ACCESS_TOKEN_MINS minutes have gone by (to the second), and 401 from then on.
  pub create_access_token_lem :
      (user_id : String) (w v : World p)
      → w.clock ≤ v.clock
      → let c = access_payload user_id w.clock p.jwt_mins in
        (token : String) × (create_access_token user_id w ≡ (ok token, w))
        × (decode_token token "access" v ≡ (until c v.clock, v))
  unfolding create_access_token
  create_access_token_lem user_id w v later =
      let c = access_payload user_id w.clock p.jwt_mins in
      let (token, e) = l.encodes c in
      (token, rw (l.secret_set, e) refl, decode_issued c "access" token w.clock v e refl refl later)

  -- `create_refresh_token` draws one id and returns a token with it and an expiration date
  -- REFRESH_TOKEN_DAYS days ahead. At every later time `decode_token(token, "refresh")` gives back
  -- the claims, with the id in `jti` and the user in `sub`, until the expiration date, taken down
  -- to the second, and 401 from then on.
  pub create_refresh_token_lem :
      (user_id : String) (w v : World p)
      → w.clock ≤ v.clock
      → let token_id = p.random_uuid w.draws in
        let expiration_date = w.clock + days p.jwt_days in
        let c = refresh_payload (p.str_uuid token_id) user_id w.clock expiration_date in
        (token : String) × (create_refresh_token user_id w
          ≡ (ok (token, token_id, expiration_date), record w { draws = suc w.draws }))
        × (decode_token token "refresh" v ≡ (until c v.clock, v))
  unfolding create_refresh_token
  create_refresh_token_lem user_id w v later =
      let token_id = p.random_uuid w.draws in
      let expiration_date = w.clock + days p.jwt_days in
      let c = refresh_payload (p.str_uuid token_id) user_id w.clock expiration_date in
      let (token, e) = l.encodes c in
      (
        token,
        rw (l.secret_set, l.algo_set, e) refl,
        decode_issued c "refresh" token w.clock v e refl refl later,
      )

  -- A match ticket carries the player and the match. Its `exp` is 60 seconds after its `iat`; at
  -- every later time `decode_token(ticket, "match_ticket")` gives back its claims until then, and
  -- 401 from then on.
  pub create_match_ticket_lem :
      (user_id match_id : String) (w v : World p)
      → w.clock ≤ v.clock
      → let c = ticket_payload (p.str_uuid (p.random_uuid w.draws)) user_id match_id w.clock in
        (ticket : String) × (create_match_ticket user_id match_id w
          ≡ (ok ticket, record w { draws = suc w.draws }))
        × (c.exp ≡ c.iat + 60)
        × (decode_token ticket "match_ticket" v ≡ (until c v.clock, v))
  unfolding create_match_ticket
  create_match_ticket_lem user_id match_id w v later =
      let c = ticket_payload (p.str_uuid (p.random_uuid w.draws)) user_id match_id w.clock in
      let (ticket, e) = l.encodes c in
      (
        ticket,
        rw (l.secret_set, e) refl,
        omega arith,
        decode_issued c "match_ticket" ticket w.clock v e refl refl later,
      )
