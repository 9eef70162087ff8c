-- ===== src/Platform/TextLaws.antt =====
-- What the tickets and the resume tokens rely on of Redis: the documented behaviour of SET, GET,
-- GETDEL and DEL.
use secure_chess.Prelude.{ℕ, ◌≡◌, String, Bool, true, Option, none, some, str_eq, if◌then◌else◌}
use secure_chess.Platform.Redis.{RedisApi}

-- the texts at the keys, on a server that is up
pub record TextLaws (r : RedisApi) : Type 0 where
  pub up : r.Store → Bool
  pub text_at : r.Store → String → Option String
  pub set-reply : (k v : String) (n : ℕ) (s : r.Store) → up s ≡ true → (r.set k v n s).0 ≡ some tt
  pub set-up : (k v : String) (n : ℕ) (s : r.Store) → up s ≡ true → up (r.set k v n s).1 ≡ true
  pub set-text :
      (k v : String) (n : ℕ) (s : r.Store) (j : String)
      → up s ≡ true
      → text_at (r.set k v n s).1 j ≡ (if str_eq k j then some v else text_at s j)
  pub getdel-reply :
      (k : String) (s : r.Store) → up s ≡ true → (r.getdel k s).0 ≡ some (text_at s k)
  pub getdel-up : (k : String) (s : r.Store) → up s ≡ true → up (r.getdel k s).1 ≡ true
  pub getdel-text :
      (k : String) (s : r.Store) (j : String)
      → up s ≡ true
      → text_at (r.getdel k s).1 j ≡ (if str_eq k j then none else text_at s j)
  pub get-reply : (k : String) (s : r.Store) → up s ≡ true → (r.get k s).0 ≡ some (text_at s k)
  pub get-same : (k : String) (s : r.Store) → up s ≡ true → (r.get k s).1 ≡ s
  pub delete-reply :
      (k : String) (s : r.Store) → up s ≡ true → (n : ℕ) × ((r.delete k s).0 ≡ some n)
  pub delete-up : (k : String) (s : r.Store) → up s ≡ true → up (r.delete k s).1 ≡ true
  pub delete-text :
      (k : String) (s : r.Store) (j : String)
      → up s ≡ true
      → text_at (r.delete k s).1 j ≡ (if str_eq k j then none else text_at s j)
