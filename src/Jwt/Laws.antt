-- ===== src/Jwt/Laws.antt =====
-- What the services rely on of PyJWT, and the settings without which no token is issued.
use secure_chess.Prelude.{ℕ, ◌*◌, ◌≡◌, String, false, some, is_empty, ltb, leb, if◌then◌else◌}
use secure_chess.Platform.{Platform, Claims, Decoded, payload, expired, invalid}

-- The documented verdict on a genuine token: not before `iat`, and not at `exp` or later.
abbrev pub verdict : Claims → ℕ → Decoded
verdict c now =
    if ltb now (c.iat * 1000000)
    then invalid
    else if leb (c.exp * 1000000) now
    then expired
    else payload c

pub record JwtLaws (p : Platform) : Type 0 where
  pub secret_set : is_empty p.jwt_secret ≡ false
  pub algo_set : is_empty p.jwt_algo ≡ false
  -- the algorithm is one that PyJWT knows
  pub encodes : (c : Claims) → (token : String) × (p.encode c p.jwt_secret p.jwt_algo ≡ some token)
  pub decode-encode :
      (c : Claims) (token : String) (now : ℕ)
      → p.encode c p.jwt_secret p.jwt_algo ≡ some token
      → p.decode token p.jwt_secret p.jwt_algo now ≡ verdict c now
