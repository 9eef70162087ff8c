-- ===== src/RedisClient/Keeps.antt =====
-- Opening and closing the Redis client does not touch the tables.
use secure_chess.Prelude.{Bool}
use secure_chess.Platform.{Platform}
use secure_chess.Platform.Tables.{Database}
use secure_chess.Platform.Keeps.{Keeps, keeps_rules}
use secure_chess.RedisClient.{get_redis_client, close_redis_connection, set_client}

module _ {p : Platform} {Q : Database → Type 0} where
  set_client-Keeps : (b : Bool) → Keeps p Q (set_client b)
  set_client-Keeps b = record { at = λ w h. h }

  pub get_redis_client-Keeps : Keeps p Q get_redis_client
  unfolding get_redis_client
  get_redis_client-Keeps = search (keeps_rules, set_client-Keeps) depth 12

  pub close_redis_connection-Keeps : Keeps p Q close_redis_connection
  unfolding close_redis_connection
  close_redis_connection-Keeps = search (keeps_rules, set_client-Keeps) depth 12
