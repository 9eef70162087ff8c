-- ===== src/Prelude/Searches.antt =====
-- What searches of a table say of each other.
use secure_chess.Prelude.Tests.{Bool-cases}
use secure_chess.Prelude.Rows.{find_first, exists, update_where}
use secure_chess.Prelude.Columns.{All}
use mathlib.Core.Path.{◌≡◌}
use mathlib.Core.Logic.{inl, inr}
use mathlib.Core.Bool.{Bool, true, false}
use mathlib.Core.Option.{none, some}
use mathlib.Core.List.{List, [], ◌∷◌}
use native.Mathlib.Omega.{arith}

module _ {A : Type 0} where
  -- a weaker test
  pub exists-weaken :
      (test weaker : A → Bool)
      → ((x : A) → test x ≡ true → weaker x ≡ true)
      → (rows : List A) → exists test rows ≡ true
      → exists weaker rows ≡ true
  unfolding exists
  exists-weaken test weaker k [] h = ground arith
  exists-weaken test weaker k (x ∷ rows) h =
      let here = k x in ground (arith, exists-weaken test weaker k rows)

  pub find_first-exists :
      (test : A → Bool) (rows : List A) (x : A)
      → find_first test rows ≡ some x
      → exists test rows ≡ true
  unfolding exists find_first
  find_first-exists test [] x h = ground arith
  find_first-exists test (y ∷ rows) x h = ground (arith, find_first-exists test rows x)

  pub find_first-fails :
      (test : A → Bool) (rows : List A)
      → All (λ x. test x ≡ false) rows
      → find_first test rows ≡ none
  unfolding find_first
  find_first-fails test [] h = ground arith
  find_first-fails test (x ∷ rows) h = ground (arith, find_first-fails test rows h.1, h.0)

  -- what an update makes of every row
  pub All-update_where_becomes :
      (P : A → Type 0) (test : A → Bool) (f : A → A)
      → ((x : A) → test x ≡ true → P (f x))
      → ((x : A) → test x ≡ false → P x)
      → (rows : List A) → All P (update_where test f rows)
  unfolding update_where
  All-update_where_becomes P test f k l [] = tt
  All-update_where_becomes P test f k l (x ∷ rows) = elim (Bool-cases (test x)) [
    | inl e ↦ rw e (k x e, All-update_where_becomes P test f k l rows)
    | inr e ↦ rw e (l x e, All-update_where_becomes P test f k l rows)
  ]

  pub exists-fails :
      (test : A → Bool) (rows : List A) → All (λ x. test x ≡ false) rows → exists test rows ≡ false
  unfolding exists
  exists-fails test [] h = ground arith
  exists-fails test (x ∷ rows) h = ground (arith, exists-fails test rows h.1, h.0)

  -- the row that is found is one of them
  pub All-found :
      (test : A → Bool) (P : A → Type 0) (rows : List A) (r : A)
      → find_first test rows ≡ some r
      → All P rows
      → P r
  unfolding find_first
  All-found test P [] r e h = absurd (ground arith)
  All-found test P (x ∷ rows) r e h = elim (Bool-cases (test x)) [
    | inl t ↦ let it : r ≡ x = ground arith in rw it h.0
    | inr f ↦ All-found test P rows r (ground arith) h.1
  ]
