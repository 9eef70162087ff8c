-- ===== src/Service/Accounts.antt =====
-- Accounts over the life of the control plane.
use secure_chess.Prelude.{ℕ, suc, String, ◌≡◌, false, true, some, ◌||◌, is_empty, inl, inr, arith}
use secure_chess.Exec.{ok}
use secure_chess.Platform.{Platform, World}
use secure_chess.UserHelpers.{Request}
use secure_chess.Auth.{SignupBody, SignupReply, signup_handler, signin_handler, start_session}
use secure_chess.Auth.Accounts.{account_of, HasAccount, HasAccount-IsKept, signup_handler_lem}
use secure_chess.Auth.SignIn.{signin_handler_accepts}
use secure_chess.Service.{Steps}
use secure_chess.Service.Invariants.{steps_keep}

module _ {p : Platform}
    (sound : (password hash : String) (salt : ℕ)
      → p.hash password salt ≡ some hash
      → p.verify password hash ≡ some true) where
  -- An account lasts: who has signed up with a name that is not empty can sign in with that name
  -- and password ever after, as far as the password goes, whatever calls are served in between,
  -- if the database is up. The hypothesis on bcrypt is that a password verifies against its hash.
  pub signup-signin :
      (body : SignupBody) (request request' : Request) (u v w : World p) (reply : SignupReply)
      → (is_empty body.username || is_empty body.password) ≡ false
      → signup_handler body request u ≡ (ok reply, v)
      → Steps v w
      → p.db_fault w.connections ≡ false
      → (hash : String) × (signin_handler
            (record { username = body.username; password = body.password })
            request'
            w
          ≡ start_session
              (account_of body hash u)
              request'
              (record w { connections = suc w.connections }))
  signup-signin body request request' u v w reply given h later up =
      elim (signup_handler_lem body request u) [
        | inl (short, e, _) ↦ absurd (ground arith)
        | inr (inl (x, e, _, _)) ↦ absurd (ground arith)
        | inr (inr (hash, made, e, free, found, _)) ↦
            let mine : HasAccount body.username (account_of body hash u) v.db = ground arith in
            let still =
              steps_keep (HasAccount-IsKept body.username (account_of body hash u)) later mine in
            let good = sound body.password hash _ made in
            (
              hash,
              signin_handler_accepts _ request' w given up (account_of body hash u) still
                  (ground arith),
            )
      ]
