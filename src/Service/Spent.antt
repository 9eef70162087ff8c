-- ===== src/Service/Spent.antt =====
-- Refresh tokens over the life of the control plane.
use secure_chess.Prelude.{String, ◌≡◌, true, false, some, none, exists, inl, inr, arith}
use secure_chess.Exec.{ok, is_ok}
use secure_chess.Platform.{Platform, World}
use secure_chess.UserHelpers.{Request}
use secure_chess.RateLimit.Runs.{rate_limit_runs}
use secure_chess.Auth.{RefreshReply, refresh, refresh_handler, logout, logout_handler}
use secure_chess.Auth.Spent.{IsSpent, has_hash, IsSpent-IsKept}
use secure_chess.Auth.Rotation.{refresh_handler-IsSpent, refresh_handler_spent}
use secure_chess.Auth.Logout.{logout_handler-IsSpent}
use secure_chess.Service.{Steps}
use secure_chess.Service.Invariants.{steps_keep}

module _ {p : Platform} (token : String) (request : Request) (w : World p) where
  refresh-IsSpent :
      (v : World p) (reply : RefreshReply)
      → refresh token request w ≡ (ok reply, v)
      → IsSpent (p.sha256 token) v.db
  unfolding refresh
  refresh-IsSpent v reply h =
      elim (rate_limit_runs 100 60 "user_id" "refresh" request (some token) (refresh_handler token)
        w) [
          | inl failed ↦ absurd (ground arith)
          | inr (u, same, runs) ↦ refresh_handler-IsSpent token request u v reply (ground arith)
        ]

  refresh_spent : IsSpent (p.sha256 token) w.db → is_ok (refresh token request w).0 ≡ false
  unfolding refresh
  refresh_spent h =
      elim (rate_limit_runs 100 60 "user_id" "refresh" request (some token) (refresh_handler token)
        w) [
          | inl failed ↦ failed
          | inr (u, same, runs) ↦
              let refused = refresh_handler_spent token request u (rw same h) in ground arith
        ]

  logout-IsSpent :
      (v : World p) (reply : String)
      → exists (has_hash (p.sha256 token)) w.db.refresh_tokens ≡ true
      → logout token request w ≡ (ok reply, v)
      → IsSpent (p.sha256 token) v.db
  unfolding logout
  logout-IsSpent v reply stored h =
      elim (rate_limit_runs 100 60 "ip" "logout" request none (logout_handler token) w) [
        | inl failed ↦ absurd (ground arith)
        | inr (u, same, runs) ↦
            logout_handler-IsSpent token request u v reply (rw same stored) (ground arith)
      ]

module _ {p : Platform} (token : String) (request request' : Request) (u v w : World p) where
  -- A refresh token works once: after a refresh with it has succeeded, no later one with it does,
  -- whatever calls are served in between.
  pub refresh_once :
      (reply : RefreshReply)
      → refresh token request u ≡ (ok reply, v)
      → Steps v w
      → is_ok (refresh token request' w).0 ≡ false
  refresh_once reply h later = refresh_spent token request' w (
      steps_keep (IsSpent-IsKept (p.sha256 token)) later
        (refresh-IsSpent token request u v reply h))

  -- Once a stored token has been logged out, no later refresh with it succeeds.
  pub refresh-logout :
      (reply : String)
      → exists (has_hash (p.sha256 token)) u.db.refresh_tokens ≡ true
      → logout token request u ≡ (ok reply, v)
      → Steps v w
      → is_ok (refresh token request' w).0 ≡ false
  refresh-logout reply stored h later = refresh_spent token request' w (
      steps_keep (IsSpent-IsKept (p.sha256 token)) later
        (logout-IsSpent token request u v reply stored h))
