-- ===== src/Prelude/Texts/Strip.antt =====
-- `str.strip()` and `not s`.
use Prim.Native.Nat.{ℕ}
use Prim.Native.Char.{code}
use Prim.Native.String.{String, [], ◌∷◌}
use mathlib.Core.Path.{◌≡◌, refl}
use mathlib.Core.Bool.{Bool, true, false, ◌||◌, ◌&&◌}
use secure_chess.Prelude.Tests.{leb, ◌==◌, if◌then◌else◌}

-- `not s`
abbrev pub is_empty : String → Bool
is_empty [] = true
is_empty (c ∷ s) = false

-- `str.isspace` of one code point
unfoldable pub is_space : ℕ → Bool
is_space c =
    (leb 9 c && leb c 13)
    || (leb 28 c && leb c 32)
    || c == 133
    || c == 160
    || c == 5760
    || (leb 8192 c && leb c 8202)
    || c == 8232
    || c == 8233
    || c == 8239
    || c == 8287
    || c == 12288

-- no character of the text is a space
abbrev pub NoSpace : String → Type 0
NoSpace [] = Unit
NoSpace (c ∷ s) = (is_space (code c) ≡ false) × NoSpace s

unfoldable pub left_strip : String → String
left_strip [] = []
left_strip (c ∷ s) = let rest = left_strip s in if is_space (code c) then rest else c ∷ s

-- keeps the text up to its last character that is no space
unfoldable pub right_strip : String → String
right_strip [] = []
right_strip (c ∷ s) =
    let rest = right_strip s in if is_space (code c) && is_empty rest then [] else c ∷ rest

-- `s.strip()`
unfoldable pub strip : String → String
unfolding left_strip right_strip is_space
strip s = right_strip (left_strip s)

left_strip_plain : (s : String) → NoSpace s → left_strip s ≡ s
unfolding left_strip
left_strip_plain [] h = refl
left_strip_plain (c ∷ s) h = rw h.0

right_strip_plain : (s : String) → NoSpace s → right_strip s ≡ s
unfolding right_strip
right_strip_plain [] h = refl
right_strip_plain (c ∷ s) h = rw (h.0, right_strip_plain s h.1)

-- A text without spaces is its own strip.
pub strip_plain : (s : String) → NoSpace s → strip s ≡ s
unfolding strip
strip_plain s h = rw (left_strip_plain s h) (right_strip_plain s h)
