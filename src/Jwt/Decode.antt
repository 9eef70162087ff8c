-- ===== src/Jwt/Decode.antt =====
-- `decode_token` of services/api/auth/jwt_helpers.py.
use secure_chess.Prelude.{
  ℕ, ◌*◌, ◌≡◌, String, true, Option, none, some, ltb, leb, eq_iff, if◌then◌else◌, arith,
}
use secure_chess.Exec.{Result, ok, err, http}
use secure_chess.Platform.{Platform, World, Claims, payload}
use secure_chess.Jwt.{decode_token, has_type}
use secure_chess.Jwt.Laws.{JwtLaws}

-- The claim `type` must be there, and equal.
has_type-eq : (t : String) (o : Option String) → has_type t o ≡ true → o ≡ some t
has_type-eq t none h = ground arith
has_type-eq t (some s) h = ground (arith, eq_iff t s)

-- What `decode_token` answers on a token that this server signed.
abbrev pub answer : Claims → String → ℕ → Result Claims
answer c token_type now =
    if ltb now (c.iat * 1000000)
    then err (http 401 "Invalid Token")
    else if leb (c.exp * 1000000) now
    then err (http 401 "Token Expired")
    else if has_type token_type c.type
    then ok c
    else err (http 401 "Unexpected token type")

module _ {p : Platform} where
  -- A token that `decode_token` accepts is one that PyJWT accepts now, and its `type` claim is the
  -- requested one: tokens of one kind never pass for another. The state is left alone.
  pub decode_token-type :
      (token token_type : String) (w v : World p) (c : Claims)
      → decode_token token token_type w ≡ (ok c, v)
      → (c.type ≡ some token_type)
        × (p.decode token p.jwt_secret p.jwt_algo w.clock ≡ payload c)
        × (v ≡ w)
  unfolding decode_token
  decode_token-type token token_type w v c h = ground (arith, has_type-eq token_type c.type)

  -- On a token that was signed with the server's own key, for every time and every requested type:
  -- 401 before its issue, 401 from its expiry on, 401 for another type, and else the claims that
  -- were signed. The state is left alone.
  pub decode_token-encode :
      JwtLaws p
      → (c : Claims) (token token_type : String) (w : World p)
      → p.encode c p.jwt_secret p.jwt_algo ≡ some token
      → decode_token token token_type w ≡ (answer c token_type w.clock, w)
  unfolding decode_token
  decode_token-encode l c token token_type w e =
      rw (l.secret_set, l.algo_set, l.decode-encode c token w.clock e) (ground arith)

  -- The answer depends on the state by the clock only.
  pub decode_token-clock :
      (token token_type : String) (w v : World p)
      → v.clock ≡ w.clock
      → decode_token token token_type v ≡ ((decode_token token token_type w).0, v)
  unfolding decode_token
  decode_token-clock token token_type w v same = ground arith
