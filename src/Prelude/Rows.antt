-- ===== src/Prelude/Rows.antt =====
-- Tables as lists of rows: the searches and updates of SQL statements.
use secure_chess.Prelude.Tests.{if◌then◌else◌, Bool-cases}
use mathlib.Core.Path.{◌≡◌}
use mathlib.Core.Logic.{inl, inr}
use mathlib.Core.Bool.{Bool, true, false, ◌||◌}
use mathlib.Core.Option.{Option, none, some}
use mathlib.Core.List.{List, [], ◌∷◌}
use native.Mathlib.Omega.{arith}

module _ {ℓ} {A : Type ℓ} where
  -- the first row that passes
  unfoldable pub find_first : (A → Bool) → List A → Option A
  find_first test [] = none
  find_first test (x ∷ rows) = let rest = find_first test rows in if test x then some x else rest

  -- whether some row passes
  unfoldable pub exists : (A → Bool) → List A → Bool
  exists test [] = false
  exists test (x ∷ rows) = test x || exists test rows

  -- a new last row
  unfoldable pub add_row : List A → A → List A
  add_row [] row = row ∷ []
  add_row (x ∷ rows) row = x ∷ add_row rows row

  unfoldable pub update_where : (A → Bool) → (A → A) → List A → List A
  update_where test f [] = []
  update_where test f (x ∷ rows) = (if test x then f x else x) ∷ update_where test f rows

  unfoldable pub remove_where : (A → Bool) → List A → List A
  remove_where test [] = []
  remove_where test (x ∷ rows) =
      let rest = remove_where test rows in if test x then rest else x ∷ rest

  pub exists-add_row :
      (test : A → Bool) (rows : List A) (row : A)
      → exists test (add_row rows row) ≡ exists test rows || test row
  unfolding exists add_row
  exists-add_row test [] row = ground arith
  exists-add_row test (x ∷ rows) row = ground (arith, exists-add_row test rows row)

  -- A row that is found passes the test.
  pub find_first-passes :
      (test : A → Bool) (rows : List A) (x : A) → find_first test rows ≡ some x → test x ≡ true
  unfolding find_first
  find_first-passes test [] x h = ground arith
  find_first-passes test (y ∷ rows) x h = elim (Bool-cases (test y)) [
    | inl e ↦ ground arith
    | inr e ↦ find_first-passes test rows x (ground arith)
  ]

  -- A search that finds nothing among the rows finds the new row, if that passes.
  pub find_first-add_row_new :
      (test : A → Bool) (rows : List A) (row : A)
      → exists test rows ≡ false
      → test row ≡ true
      → find_first test (add_row rows row) ≡ some row
  unfolding exists find_first add_row
  find_first-add_row_new test [] row h t = ground arith
  find_first-add_row_new test (x ∷ rows) row h t =
      ground (arith, find_first-add_row_new test rows row)

  -- A row that is found without the new row is still found.
  pub find_first-add_row_old :
      (test : A → Bool) (rows : List A) (row x : A)
      → find_first test rows ≡ some x
      → find_first test (add_row rows row) ≡ some x
  unfolding find_first add_row
  find_first-add_row_old test [] row x h = ground arith
  find_first-add_row_old test (y ∷ rows) row x h =
      ground (arith, find_first-add_row_old test rows row x)
