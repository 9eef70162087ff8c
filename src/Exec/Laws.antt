-- ===== src/Exec/Laws.antt =====
-- Inversion of an action that ended well.
use secure_chess.Prelude.{◌≡◌, refl, ◌⊎◌, inl, inr, arith}
use secure_chess.Exec.{Error, Result, ok, err, Exec, ◌>>=◌}

pub Result-cases {ℓ} :
    {A : Type ℓ} (r : Result A) → ((a : A) × (r ≡ ok a)) ⊎ ((e : Error) × (r ≡ err e))
Result-cases (ok a) = inl (a, refl)
Result-cases (err e) = inr (e, refl)

module _ {S A B : Type 0} where
  -- Both parts of a sequence that ended well have ended well.
  pub >>=-eq-ok :
      (m : Exec S A) (f : A → Exec S B) {s s' : S} {b : B}
      → (m >>= f) s ≡ (ok b, s')
      → (a : A) × (t : S) × (m s ≡ (ok a, t)) × (f a t ≡ (ok b, s'))
  >>=-eq-ok m f {s} h = elim (Result-cases (m s).0) [
    | inl (a, e) ↦ (a, (m s).1, ground arith, ground arith)
    | inr (x, e) ↦ absurd (ground arith)
  ]

module _ {S A B : Type 0} where
  pub bind-ok :
      (m : Exec S A) (f : A → Exec S B) (s t : S) (a : A) → m s ≡ (ok a, t) → (m >>= f) s ≡ f a t
  bind-ok m f s t a e = rw (e, ◌>>=◌) (rw e refl)

  pub bind-err :
      (m : Exec S A) (f : A → Exec S B) (s t : S) (x : Error)
      → m s ≡ (err x, t)
      → (m >>= f) s ≡ (err x, t)
  bind-err m f s t x e = rw (e, ◌>>=◌) (rw e refl)
