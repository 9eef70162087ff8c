-- ===== src/Prelude/Columns.antt =====
-- Constraints on all rows of a table, and on every pair of its rows.
use secure_chess.Prelude.Tests.{Bool-cases}
use secure_chess.Prelude.Rows.{exists, add_row, update_where, exists-add_row}
use mathlib.Core.Path.{◌≡◌, refl, ◌∙◌, fun_ext}
use mathlib.Core.Logic.{inl, inr}
use mathlib.Core.Bool.{Bool, false}
use mathlib.Core.List.{List, [], ◌∷◌}
use native.Mathlib.Omega.{arith}

module _ {A : Type 0} where
  abbrev pub All : (A → Type 0) → List A → Type 0
  All P [] = Unit
  All P (x ∷ rows) = P x × All P rows

  -- no row conflicts with a later one
  abbrev pub Distinct : (A → A → Bool) → List A → Type 0
  Distinct same [] = Unit
  Distinct same (x ∷ rows) = (exists (same x) rows ≡ false) × Distinct same rows

  pub All-add_row :
      (P : A → Type 0) (rows : List A) (row : A) → All P rows → P row → All P (add_row rows row)
  unfolding add_row
  All-add_row P [] row h k = (k, tt)
  All-add_row P (x ∷ rows) row h k = (h.0, All-add_row P rows row h.1 k)

  pub All-map :
      (P Q : A → Type 0) → ((x : A) → P x → Q x) → (rows : List A) → All P rows → All Q rows
  All-map P Q f [] h = tt
  All-map P Q f (x ∷ rows) h = (f x h.0, All-map P Q f rows h.1)

  pub All-update_where :
      (P : A → Type 0) (test : A → Bool) (f : A → A)
      → ((x : A) → P x → P (f x))
      → (rows : List A) → All P rows
      → All P (update_where test f rows)
  unfolding update_where
  All-update_where P test f k [] h = tt
  All-update_where P test f k (x ∷ rows) h = elim (Bool-cases (test x)) [
    | inl e ↦ rw e (k x h.0, All-update_where P test f k rows h.1)
    | inr e ↦ rw e (h.0, All-update_where P test f k rows h.1)
  ]

  pub Distinct-add_row :
      (same : A → A → Bool) (rows : List A) (row : A)
      → Distinct same rows
      → exists (λ x. same x row) rows ≡ false
      → Distinct same (add_row rows row)
  unfolding add_row exists
  Distinct-add_row same [] row h new = (refl, tt)
  Distinct-add_row same (x ∷ rows) row h new = (
    ground (arith, exists-add_row (same x) rows row, h.0),
    Distinct-add_row same rows row h.1 (ground arith),
  )

  -- an update of the rows that a test does not look at
  pub exists-update_where :
      (p test : A → Bool) (f : A → A)
      → ((x : A) → p (f x) ≡ p x)
      → (rows : List A) → exists p (update_where test f rows) ≡ exists p rows
  unfolding exists update_where
  exists-update_where p test f k [] = refl
  exists-update_where p test f k (x ∷ rows) =
      ground (arith, k x, exists-update_where p test f k rows)

  pub Distinct-update_where :
      (same : A → A → Bool) (test : A → Bool) (f : A → A)
      → ((x y : A) → same (f x) y ≡ same x y)
      → ((x y : A) → same x (f y) ≡ same x y)
      → (rows : List A) → Distinct same rows
      → Distinct same (update_where test f rows)
  unfolding update_where
  Distinct-update_where same test f k l [] h = tt
  Distinct-update_where same test f k l (x ∷ rows) h =
      let rest = Distinct-update_where same test f k l rows h.1 in
      let first = exists-update_where (same x) test f (l x) rows ∙ h.0 in
      elim (Bool-cases (test x)) [
        | inl e ↦ rw e (rw (fun_ext (k x)) first, rest)
        | inr e ↦ rw e (first, rest)
      ]
