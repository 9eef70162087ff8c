-- ===== src/Sample/Tokens.antt =====
-- A codec of claims, in place of PyJWT: a text that starts with `T` stands for a signed token.
use Prim.Native.Char.{Char, code}
use Prim.Native.String as S
use mathlib.Core.Path.{subst}
use mathlib.Core.Option.{some-injective}
use secure_chess.Prelude.{
  ℕ, zero, suc, ◌+◌, ◌*◌, ◌/◌, ◌%◌, arith, ◌≡◌, refl, ap, String, Option, none, some, ◌==◌,
  if◌then◌else◌,
}
use secure_chess.Platform.{Claims, Decoded, invalid}
use secure_chess.Jwt.Laws.{verdict}

put_text : String → String → String
put_text S.[] rest = S.◌∷◌ "z" rest
put_text (S.◌∷◌ c s) rest = S.◌∷◌ "a" (S.◌∷◌ c (put_text s rest))

abbrev onto : Char → String × String → String × String
onto c (s, rest) = (S.◌∷◌ c s, rest)

take_text : String → String × String
take_text S.[] = ("", "")
take_text (S.◌∷◌ x S.[]) = ("", "")
take_text (S.◌∷◌ x (S.◌∷◌ c r)) =
    let more = take_text r in if code x == b'a' then onto c more else ("", S.◌∷◌ c r)

take_text-put_text : (s rest : String) → take_text (put_text s rest) ≡ (s, rest)
unfolding take_text put_text
take_text-put_text S.[] S.[] = refl
take_text-put_text S.[] (S.◌∷◌ x rest) = refl
take_text-put_text (S.◌∷◌ c s) rest = ap (onto c) (take_text-put_text s rest)

put_option : Option String → String → String
unfolding put_text
put_option none rest = S.◌∷◌ "n" rest
put_option (some s) rest = S.◌∷◌ "s" (put_text s rest)

abbrev some_first : String × String → Option String × String
some_first (s, rest) = (some s, rest)

take_option : String → Option String × String
unfolding take_text
take_option S.[] = (none, "")
take_option (S.◌∷◌ x r) = if code x == b's' then some_first (take_text r) else (none, r)

take_option-put_option :
    (o : Option String) (rest : String) → take_option (put_option o rest) ≡ (o, rest)
unfolding take_option put_option
take_option-put_option none rest = refl
take_option-put_option (some s) rest = ap some_first (take_text-put_text s rest)

put_number : ℕ → String → String
put_number zero rest = S.◌∷◌ "z" rest
put_number (suc n) rest = S.◌∷◌ "a" (put_number n rest)

abbrev one_more : ℕ × String → ℕ × String
one_more (n, rest) = (suc n, rest)

take_number : String → ℕ × String
take_number S.[] = (0, "")
take_number (S.◌∷◌ x r) =
    let more = take_number r in if code x == b'a' then one_more more else (0, r)

take_number-put_number : (n : ℕ) (rest : String) → take_number (put_number n rest) ≡ (n, rest)
unfolding take_number put_number
take_number-put_number zero rest = refl
take_number-put_number (suc n) rest = ap one_more (take_number-put_number n rest)

-- a number as its days and the seconds of its last day
put_seconds : ℕ → String → String
put_seconds n rest = put_number (n / 86400) (put_number (n % 86400) rest)

take_seconds : String → ℕ × String
take_seconds r =
    let (days, r1) = take_number r in let (more, r2) = take_number r1 in (days * 86400 + more, r2)

take_seconds-put_seconds : (n : ℕ) (rest : String) → take_seconds (put_seconds n rest) ≡ (n, rest)
unfolding take_seconds put_seconds
take_seconds-put_seconds n rest =
    rw take_number-put_number
      (rw take_number-put_number (ap {B = ℕ × String} (λ m. (m, rest)) (omega arith)))

abbrev write_claims : Claims → String
write_claims c = put_option c.jti (
    put_option c.sub
      (put_option c.match_id (put_option c.type (put_seconds c.iat (put_seconds c.exp "")))))

abbrev read_claims : String → Claims
read_claims r =
    let (a, r1) = take_option r in
    let (b, r2) = take_option r1 in
    let (m, r3) = take_option r2 in
    let (t, r4) = take_option r3 in
    let (i, r5) = take_seconds r4 in
    let (e, _) = take_seconds r5 in
    record { jti = a; sub = b; match_id = m; type = t; iat = i; exp = e }

read_claims-write_claims : (c : Claims) → read_claims (write_claims c) ≡ c
read_claims-write_claims c = simp (take_option-put_option, take_seconds-put_seconds)

unfoldable pub sign : Claims → String → String → Option String
unfolding put_option put_number put_seconds
sign c key algo = some (S.◌∷◌ "T" (write_claims c))

unfoldable pub check : String → String → String → ℕ → Decoded
unfolding take_option take_number take_seconds
check S.[] key algo now = invalid
check (S.◌∷◌ x r) key algo now = if code x == b'T' then verdict (read_claims r) now else invalid

pub check-sign :
    (c : Claims) (token key algo : String) (now : ℕ)
    → sign c key algo ≡ some token
    → check token key algo now ≡ verdict c now
unfolding check sign
check-sign c token key algo now e =
    subst (λ t. check t key algo now ≡ verdict c now) (some-injective _ _ e)
      (ap (λ d. verdict d now) (read_claims-write_claims c))
