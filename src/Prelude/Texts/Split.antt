-- ===== src/Prelude/Texts/Split.antt =====
-- `str.split` at a separator of one character.
use Prim.Native.Nat.{ℕ}
use Prim.Native.Char.{Char, code}
use Prim.Native.String.{String, [], ◌∷◌, ◌++◌}
use mathlib.Core.Path.{◌≡◌, refl}
use mathlib.Core.Bool.{Bool, true, false, ◌||◌}
use mathlib.Core.Option.{Option, none, some}
use mathlib.Core.List as L
use mathlib.Core.List.{List}
use mathlib.Core.Logic.{inl, inr}
use native.Mathlib.Omega.{arith}
use text.Mathlib.TextLemmas.{nil-append, cons-append}
use secure_chess.Prelude.Texts.Strip.{is_empty}
use secure_chess.Prelude.Tests.{◌==◌, if◌then◌else◌, Bool-cases}

-- `c in s`
abbrev pub has_char : ℕ → String → Bool
has_char c [] = false
has_char c (x ∷ s) = code x == c || has_char c s

abbrev pub onto_first : Char → Option (String × String) → Option (String × String)
onto_first x none = none
onto_first x (some (a, b)) = some (x ∷ a, b)

-- `s.split(c, 1)`: `none` is the list with one part, `some (a, b)` the one with two.
unfoldable pub split_once : ℕ → String → Option (String × String)
split_once c [] = none
split_once c (x ∷ s) =
    let rest = split_once c s in if code x == c then some ([], s) else onto_first x rest

abbrev pub onto_head : Char → List String → List String
onto_head x L.[] = L.◌∷◌ (x ∷ []) L.[]
onto_head x (L.◌∷◌ a l) = L.◌∷◌ (x ∷ a) l

-- `s.split(c)`
unfoldable pub split : ℕ → String → List String
split c [] = L.◌∷◌ [] L.[]
split c (x ∷ s) = let rest = split c s in if code x == c then L.◌∷◌ [] rest else onto_head x rest

-- `s.split(c)[0]`; the list is never empty
unfoldable pub first_part : ℕ → String → String
unfolding split
first_part c s = elim (split c s) [ L.[] ↦ [] | L.◌∷◌ a l ↦ a ]

module _ (c : ℕ) (x : Char) (e : code x ≡ c) where
  -- The first separator ends the first part.
  pub split_once-append :
      (a b : String) → has_char c a ≡ false → split_once c (a ++ (x ∷ b)) ≡ some (a, b)
  unfolding split_once
  split_once-append [] b h = simp nil-append (ground arith)
  split_once-append (y ∷ a) b h = simp cons-append (ground (arith, split_once-append a b))

  pub split-append :
      (a b : String) → has_char c a ≡ false → split c (a ++ (x ∷ b)) ≡ L.◌∷◌ a (split c b)
  unfolding split
  split-append [] b h = simp nil-append (ground arith)
  split-append (y ∷ a) b h = simp cons-append (ground (arith, split-append a b))

  pub first_part-append : (a b : String) → has_char c a ≡ false → first_part c (a ++ (x ∷ b)) ≡ a
  unfolding first_part
  first_part-append a b h = rw (split-append a b h, first_part)

-- A text without the separator is its only part.
pub split_plain : (c : ℕ) (a : String) → has_char c a ≡ false → split c a ≡ L.◌∷◌ a L.[]
unfolding split
split_plain c [] h = refl
split_plain c (y ∷ a) h = ground (arith, split_plain c a)

-- There is always a first part.
parts : (c : ℕ) (s : String) → (a : String) × (l : List String) × (split c s ≡ L.◌∷◌ a l)
unfolding split
parts c [] = ([], L.[], refl)
parts c (x ∷ s) =
    let (a, l, e) = parts c s in
    elim (Bool-cases (code x == c)) [
      | inl here ↦ ([], split c s, ground arith)
      | inr later ↦ (x ∷ a, l, ground arith)
    ]

-- A text with the separator has two parts or more.
pub split_two :
    (c : ℕ) (s : String)
    → has_char c s ≡ true
    → (a b : String) × (l : List String) × (split c s ≡ L.◌∷◌ a (L.◌∷◌ b l))
unfolding split
split_two c [] h = absurd (ground arith)
split_two c (x ∷ s) h = elim (Bool-cases (code x == c)) [
  | inl here ↦ let (b, l, e) = parts c s in ([], b, l, ground arith)
  | inr later ↦ let (a, b, l, e) = split_two c s (ground arith) in (x ∷ a, b, l, ground arith)
]

-- A text with a character in its middle is not empty.
pub is_empty-append : (a b : String) (x : Char) → is_empty (a ++ (x ∷ b)) ≡ false
is_empty-append [] b x = simp nil-append
is_empty-append (y ∷ a) b x = simp cons-append
