-- ===== src/Prelude/Lookups.antt =====
-- What is found after an update or a removal by another test or by the same.
use secure_chess.Prelude.Tests.{Bool-cases}
use secure_chess.Prelude.Rows.{find_first, exists, add_row, update_where, remove_where}
use mathlib.Core.Path.{◌≡◌, refl}
use mathlib.Core.Logic.{inl, inr}
use mathlib.Core.Bool.{Bool, true, false}
use mathlib.Core.Option.{none, some}
use mathlib.Core.List.{List, [], ◌∷◌}
use native.Mathlib.Omega.{arith}

module _ {A : Type 0} where
  pub find_first-update_where :
      (test : A → Bool) (f : A → A)
      → ((x : A) → test (f x) ≡ test x)
      → (rows : List A) → (x : A) → find_first test rows ≡ some x
      → find_first test (update_where test f rows) ≡ some (f x)
  unfolding find_first update_where
  find_first-update_where test f keyed [] x h = ground arith
  find_first-update_where test f keyed (y ∷ rows) x h =
      ground (arith, find_first-update_where test f keyed rows x, keyed y)

  pub find_first-remove_where :
      (test : A → Bool) (rows : List A) → find_first test (remove_where test rows) ≡ none
  unfolding find_first remove_where
  find_first-remove_where test [] = refl
  find_first-remove_where test (y ∷ rows) = ground (arith, find_first-remove_where test rows)

  -- two tests that no row passes both
  module _ (other test : A → Bool) (apart : (x : A) → test x ≡ true → other x ≡ false) where
    pub find_first-update_other :
        (f : A → A)
        → ((x : A) → other (f x) ≡ other x)
        → (rows : List A) → find_first other (update_where test f rows) ≡ find_first other rows
    unfolding find_first update_where
    find_first-update_other f keyed [] = refl
    find_first-update_other f keyed (y ∷ rows) = elim (Bool-cases (test y)) [
      | inl t ↦ rw (t, keyed y, apart y t) (find_first-update_other f keyed rows)
      | inr u ↦ rw (u, find_first-update_other f keyed rows) refl
    ]

    pub find_first-remove_other :
        (rows : List A) → find_first other (remove_where test rows) ≡ find_first other rows
    unfolding find_first remove_where
    find_first-remove_other [] = refl
    find_first-remove_other (y ∷ rows) = elim (Bool-cases (test y)) [
      | inl t ↦ rw (t, apart y t) (find_first-remove_other rows)
      | inr u ↦ rw (u, find_first-remove_other rows) refl
    ]

  -- a search by the key that a removal leaves
  pub exists-add_row_old :
      (test : A → Bool) (rows : List A) (row : A)
      → exists test rows ≡ true
      → exists test (add_row rows row) ≡ true
  unfolding exists add_row
  exists-add_row_old test [] row h = ground arith
  exists-add_row_old test (x ∷ rows) row h = ground (arith, exists-add_row_old test rows row)
