-- ===== src/Exec.antt =====
-- What a call of the services may raise, and calls as actions on a state. What was written before
-- a raise stays written, so the state comes back beside the error too.
pub mod Laws
use secure_chess.Prelude.{ℕ, String, Bool, true, false, Option, none, some, if◌then◌else◌}

-- `http` is `HTTPException(status_code, detail)`; `too_many_requests` is the 429 of the rate limiter
-- with the numbers of its headers. The next are exceptions of Python and of the libraries.
-- `uncaught_exception` is any other that nothing catches, and `closed_socket` the use of a closed socket:
-- both end a request of the control plane with 500, and the process of the game server.
pub data Error : Type 0 where
  http : ℕ → String → Error
  too_many_requests : (limit reset retry_after : ℕ) → Error
  runtime_error value_error key_error : String → Error
  jwt_error redis_error db_error unique_violation : Error
  uncaught_exception closed_socket : Error

pub data Result {ℓ} (A : Type ℓ) : Type ℓ where
  ok : A → Result A
  err : Error → Result A

abbrev pub is_ok {ℓ} : {A : Type ℓ} → Result A → Bool
is_ok (ok a) = true
is_ok (err e) = false

abbrev pub Exec : Type 0 → Type 0 → Type 0
Exec S A = S → Result A × S

module _ {S A : Type 0} where
  abbrev pub pure : A → Exec S A
  pure a s = (ok a, s)

  abbrev pub raise : Error → Exec S A
  raise e s = (err e, s)

  abbrev pub lift : Result A → Exec S A
  lift r s = (r, s)

  abbrev pub gets : (S → A) → Exec S A
  gets f s = (ok (f s), s)

  -- `None` where a value is wanted
  abbrev pub or_raise : Option A → Error → Exec S A
  or_raise none e s = (err e, s)
  or_raise (some a) e s = (ok a, s)

  -- `try: m` with a handler for what it raises
  abbrev pub try_with : Exec S A → (Error → Exec S A) → Exec S A
  try_with m handler s = let (r, s') = m s in elim r [ ok a ↦ (ok a, s') | err e ↦ handler e s' ]

abbrev pub raise_if : {S : Type 0} → Bool → Error → Exec S Unit
raise_if c e s = (if c then err e else ok tt, s)

abbrev pub modify : {S : Type 0} → (S → S) → Exec S Unit
modify f s = (ok tt, f s)

infixl 5 ◌>>=◌ ◌>>◌
abbrev pub ◌>>=◌ : {S A B : Type 0} → Exec S A → (A → Exec S B) → Exec S B
◌>>=◌ m f s = let (r, s') = m s in elim r [ ok a ↦ f a s' | err e ↦ (err e, s') ]

abbrev pub ◌>>◌ : {S A B : Type 0} → Exec S A → Exec S B → Exec S B
m >> k = m >>= λ _. k
