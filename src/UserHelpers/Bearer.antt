-- ===== src/UserHelpers/Bearer.antt =====
-- `get_user_id` of services/api/utils/user_helpers.py: which requests pass a protected route.
use Prim.Native.String as S
use secure_chess.Prelude.{
  ◌+◌, ◌*◌, ◌≤◌, ◌≡◌, refl, String, ◌++◌, false, some, leb, is_empty, NoSpace, strip, strip_plain,
  split_once, split_once-append, Option-cases, inl, inr, if◌then◌else◌, arith,
}
use secure_chess.Exec.{ok, err, http}
use secure_chess.Exec.Laws.{Result-cases}
use secure_chess.Platform.{Platform, World, Claims, payload}
use secure_chess.Platform.Calls.{timestamp}
use secure_chess.Jwt.{decode_token, create_access_token, access_payload, minutes}
use secure_chess.Jwt.Laws.{JwtLaws}
use secure_chess.Jwt.Decode.{decode_token-type, decode_token-clock}
use secure_chess.Jwt.Issue.{until, create_access_token_lem}
use secure_chess.UserHelpers.{Request, get_user_id, bearer_of}

abbrev pub bearer : String → String
bearer token = "Bearer" ++ S.◌∷◌ " " token

module _ {p : Platform} where
  -- Whoever passes `get_user_id` has sent an Authorization header whose token PyJWT accepts now
  -- as one of type "access", and the result is its `sub` claim; the state is left alone.
  pub get_user_id-access :
      (request : Request) (w v : World p) (user_id : String)
      → get_user_id request w ≡ (ok user_id, v)
      → (header : String) × (request.authorization ≡ some header)
        × (token : String) × (bearer_of (split_once b' ' header) ≡ some token)
        × (c : Claims) × (p.decode (strip token) p.jwt_secret p.jwt_algo w.clock ≡ payload c)
        × (c.type ≡ some "access")
        × (c.sub ≡ some user_id)
        × (v ≡ w)
  unfolding get_user_id
  get_user_id-access request w v user_id h = elim (Option-cases request.authorization) [
    | inl e ↦ absurd (ground arith)
    | inr (header, e1) ↦ elim (Option-cases (bearer_of (split_once b' ' header))) [
      | inl e ↦ absurd (ground arith)
      | inr (token, e2) ↦ elim (Result-cases (decode_token (strip token) "access" w).0) [
        | inr (x, e) ↦ absurd (ground arith)
        | inl (c, e3) ↦
            let v' = (decode_token (strip token) "access" w).1 in
            let (type, accepted, same) =
              decode_token-type (strip token) "access" w v' c (ground arith) in
            (header, e1, token, e2, c, accepted, type, ground arith, ground arith)
      ]
    ]
  ]

  -- An access token in its header is worth the user it was issued for, at every later time until
  -- its expiry, and 401 from then on. (PyJWT's tokens are not empty and have no spaces.)
  pub get_user_id-create_access_token :
      (l : JwtLaws p) (user_id token : String) (w v : World p) (request : Request)
      → create_access_token user_id w ≡ (ok token, w)
      → is_empty token ≡ false
      → NoSpace token
      → request.authorization ≡ some (bearer token)
      → w.clock ≤ v.clock
      → get_user_id request v ≡ (
        if leb (timestamp (w.clock + minutes p.jwt_mins) * 1000000) v.clock
            then err (http 401 "Token Expired")
            else ok user_id,
        v,
      )
  unfolding get_user_id
  get_user_id-create_access_token l user_id token w v request made e n auth later =
      let (t, made', accepted) = create_access_token_lem l user_id w v later in
      let same : t ≡ token = ground arith in
      let c = access_payload user_id w.clock p.jwt_mins in
      let answer : decode_token token "access" v ≡ (until c v.clock, v) = rw (← same) accepted in
      rw (auth, split_once-append b' ' " " refl "Bearer" token refl, strip_plain token n, e)
        (ground arith)

  -- The answer depends on the state by the clock only.
  pub get_user_id-clock :
      (request : Request) (w v : World p)
      → v.clock ≡ w.clock
      → get_user_id request v ≡ ((get_user_id request w).0, v)
  unfolding get_user_id
  get_user_id-clock request w v same = elim (Option-cases request.authorization) [
    | inl e ↦ ground arith
    | inr (header, e1) ↦ elim (Option-cases (bearer_of (split_once b' ' header))) [
      | inl e ↦ ground arith
      | inr (token, e2) ↦
          let decoded = decode_token-clock (strip token) "access" w v same in ground arith
    ]
  ]
