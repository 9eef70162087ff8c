-- ===== src/Prelude/Keyed.antt =====
-- Tables whose rows have distinct keys: their length, and what an update or a removal by the key
-- does.
use secure_chess.Prelude.Tests.{Bool-cases}
use secure_chess.Prelude.Rows.{find_first, exists, add_row, update_where, remove_where}
use secure_chess.Prelude.Columns.{All, Distinct}
use Prim.Native.Nat.{ℕ, suc}
use mathlib.Core.Path.{◌≡◌, refl, ap}
use mathlib.Core.Logic.{inl, inr}
use mathlib.Core.Bool.{Bool, true, false}
use mathlib.Core.Option.{some}
use mathlib.Core.List.{List, [], ◌∷◌}
use native.Mathlib.Omega.{arith}

module _ {A : Type 0} where
  abbrev pub length : List A → ℕ
  length [] = 0
  length (x ∷ rows) = suc (length rows)

  pub length-add_row : (rows : List A) (row : A) → length (add_row rows row) ≡ suc (length rows)
  unfolding add_row
  length-add_row [] row = refl
  length-add_row (x ∷ rows) row = ap suc (length-add_row rows row)

  pub length-update_where :
      (test : A → Bool) (f : A → A) (rows : List A)
      → length (update_where test f rows) ≡ length rows
  unfolding update_where
  length-update_where test f [] = refl
  length-update_where test f (x ∷ rows) = ap suc (length-update_where test f rows)

  pub remove_where-absent :
      (test : A → Bool) (rows : List A) → exists test rows ≡ false → remove_where test rows ≡ rows
  unfolding exists remove_where
  remove_where-absent test [] h = refl
  remove_where-absent test (x ∷ rows) h = ground (arith, remove_where-absent test rows)

  pub update_where-absent :
      (test : A → Bool) (f : A → A) (rows : List A)
      → exists test rows ≡ false
      → update_where test f rows ≡ rows
  unfolding exists update_where
  update_where-absent test f [] h = refl
  update_where-absent test f (x ∷ rows) h = ground (arith, update_where-absent test f rows)

  pub All-remove_where :
      (P : A → Type 0) (test : A → Bool) (rows : List A)
      → All P rows
      → All P (remove_where test rows)
  unfolding remove_where
  All-remove_where P test [] h = tt
  All-remove_where P test (x ∷ rows) h = elim (Bool-cases (test x)) [
    | inl e ↦ rw e (All-remove_where P test rows h.1)
    | inr e ↦ rw e (h.0, All-remove_where P test rows h.1)
  ]

  pub exists-remove_where-false :
      (p test : A → Bool) (rows : List A)
      → exists p rows ≡ false
      → exists p (remove_where test rows) ≡ false
  unfolding exists remove_where
  exists-remove_where-false p test [] h = refl
  exists-remove_where-false p test (x ∷ rows) h =
      ground (arith, exists-remove_where-false p test rows)

  pub Distinct-remove_where :
      (same : A → A → Bool) (test : A → Bool) (rows : List A)
      → Distinct same rows
      → Distinct same (remove_where test rows)
  unfolding remove_where
  Distinct-remove_where same test [] h = tt
  Distinct-remove_where same test (x ∷ rows) h = elim (Bool-cases (test x)) [
    | inl e ↦ rw e (Distinct-remove_where same test rows h.1)
    | inr e ↦
        rw e (
          exists-remove_where-false (same x) test rows h.0,
          Distinct-remove_where same test rows h.1,
        )
  ]

  -- what two rows that both pass have in common
  module _ (same : A → A → Bool) (test : A → Bool)
      (alike : (x y : A) → test x ≡ true → test y ≡ true → same x y ≡ true) where
    no_other :
        (x : A) (rows : List A)
        → test x ≡ true
        → exists (same x) rows ≡ false
        → exists test rows ≡ false
    unfolding exists
    no_other x [] t h = refl
    no_other x (y ∷ rows) t h = let a = alike x y t in ground (arith, no_other x rows t)

    -- a removal by the key takes one row
    pub length-remove_where :
        (rows : List A)
        → Distinct same rows
        → exists test rows ≡ true
        → length rows ≡ suc (length (remove_where test rows))
    unfolding exists remove_where
    length-remove_where [] h e = ground arith
    length-remove_where (x ∷ rows) h e = elim (Bool-cases (test x)) [
      | inl t ↦ rw (t, remove_where-absent test rows (no_other x rows t h.0)) refl
      | inr f ↦ rw f (ap suc (length-remove_where rows h.1 (ground arith)))
    ]

    -- an update by the key meets the row that is found
    pub All-update_found :
        (P : A → Type 0) (f : A → A) (rows : List A) (r : A)
        → Distinct same rows
        → find_first test rows ≡ some r
        → P (f r)
        → All P rows
        → All P (update_where test f rows)
    unfolding find_first update_where
    All-update_found P f [] r d h p all = tt
    All-update_found P f (x ∷ rows) r d h p all = elim (Bool-cases (test x)) [
      | inl t ↦
          let it : r ≡ x = ground arith in
          rw (t, update_where-absent test f rows (no_other x rows t d.0)) (rw (← it) p, all.1)
      | inr u ↦ rw u (all.0, All-update_found P f rows r d.1 (ground arith) p all.1)
    ]
