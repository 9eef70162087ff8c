-- ===== src/Prelude/Decimal.antt =====
-- `str(n)` of a natural number, as in an f-string.
use Prim.Native.Nat.{ℕ, zero, suc, ◌/◌, ◌%◌, ◌≤◌, ◌<◌}
use Prim.Native.String.{String, ◌++◌}
use secure_chess.Prelude.Tests.{ltb, ◌==◌, if◌then◌else◌, Bool-cases}
use mathlib.Core.Path.{◌≡◌, refl}
use mathlib.Core.Logic.{inl, inr}
use native.Mathlib.Omega.{arith}

unfoldable pub digit : ℕ → String
digit d =
    if d == 0
    then "0"
    else if d == 1
    then "1"
    else if d == 2
    then "2"
    else if d == 3
    then "3"
    else if d == 4
    then "4"
    else if d == 5
    then "5"
    else if d == 6
    then "6"
    else if d == 7
    then "7"
    else if d == 8
    then "8"
    else "9"

-- the last digit is written first, on the left of the text so far
unfoldable pub digits : ℕ → ℕ → String → String
unfolding digit
digits zero n acc = acc
digits (suc fuel) n acc =
    let more = digits fuel (n / 10) (digit (n % 10) ++ acc) in
    if ltb n 10 then digit n ++ acc else more

unfoldable pub str_of : ℕ → String
unfolding digits
str_of n = digits (suc n) n ""

-- Any two counts of rounds above the number give the same text, so n + 1 rounds are enough.
pub digits_enough : (f g n : ℕ) (acc : String) → n < f → n < g → digits f n acc ≡ digits g n acc
unfolding digits
digits_enough zero g n acc a b = absurd (omega arith)
digits_enough (suc f) zero n acc a b = absurd (omega arith)
digits_enough (suc f) (suc g) n acc a b = elim (Bool-cases (ltb n 10)) [
  | inl last ↦ rw last refl
  | inr more ↦
      let big : 10 ≤ n = ground arith in
      rw more (digits_enough f g (n / 10) (digit (n % 10) ++ acc) (omega arith) (omega arith))
]
