-- ===== src/Platform/ListLaws.antt =====
-- What the matchmaking queue relies on of Redis: the documented behaviour of RPUSH, LLEN and LPOP.
use secure_chess.Prelude.{ℕ, ◌≡◌, String, Bool, true, some, List, [], ◌∷◌, add_row, length}
use secure_chess.Platform.Redis.{RedisApi}

-- the lists at the keys, on a server that is up
pub record ListLaws (r : RedisApi) : Type 0 where
  pub up : r.Store → Bool
  pub items : r.Store → String → List String
  pub rpush-reply :
      (k v : String) (s : r.Store) → up s ≡ true → (n : ℕ) × ((r.rpush k v s).0 ≡ some n)
  pub rpush-up : (k v : String) (s : r.Store) → up s ≡ true → up (r.rpush k v s).1 ≡ true
  pub rpush-items :
      (k v : String) (s : r.Store) → up s ≡ true → items (r.rpush k v s).1 k ≡ add_row (items s k) v
  pub llen-reply :
      (k : String) (s : r.Store) → up s ≡ true → (r.llen k s).0 ≡ some (length (items s k))
  pub llen-same : (k : String) (s : r.Store) → up s ≡ true → (r.llen k s).1 ≡ s
  pub lpop-reply :
      (k x y : String) (l : List String) (s : r.Store)
      → up s ≡ true
      → items s k ≡ x ∷ y ∷ l
      → (r.lpop k 2 s).0 ≡ some (some (x ∷ y ∷ []))
  pub lpop-items :
      (k x y : String) (l : List String) (s : r.Store)
      → up s ≡ true
      → items s k ≡ x ∷ y ∷ l
      → items (r.lpop k 2 s).1 k ≡ l
