-- ===== src/Matchmaking/Pickup.antt =====
-- `get_ticket` of services/api/matchmaking/routes.py
use secure_chess.Prelude.{
  ◌≡◌, refl, String, true, none, some, eq_refl, inl, inr, Option-cases, arith,
}
use secure_chess.Exec.{Result, ok, err, http}
use secure_chess.Platform.{Platform, World}
use secure_chess.Platform.TextLaws.{TextLaws}
use secure_chess.Platform.CallLaws.{redis_call-some}
use secure_chess.UserHelpers.{Request, get_user_id}
use secure_chess.UserHelpers.Bearer.{get_user_id-clock}
use secure_chess.RedisClient.Client.{get_redis_client-connected}
use secure_chess.Matchmaking.{get_ticket, ticket_key, present}

abbrev pub no_ticket : Result String
no_ticket = err (http 404 "No ticket found — match may not be ready yet")

module _ {p : Platform} (l : TextLaws p.redis) (request : Request) (user_id : String) where
  module _ (w : World p) (connected : w.has_client ≡ true) (up : l.up w.redis ≡ true)
      (found : get_user_id request w ≡ (ok user_id, w)) where
    absent :
        present (l.text_at w.redis (ticket_key user_id)) ≡ none
        → get_ticket request w ≡ (no_ticket, w)
    unfolding get_ticket
    absent e =
        let key = ticket_key user_id in
        let a = get_redis_client-connected w connected in
        let b = redis_call-some p (p.redis.get key) w (l.get-reply key w.redis up) in
        let c = l.get-same key w.redis up in ground arith

    taken :
        (ticket : String)
        → present (l.text_at w.redis (ticket_key user_id)) ≡ some ticket
        → get_ticket request w
          ≡ (ok ticket, record w { redis = (p.redis.delete (ticket_key user_id) w.redis).1 })
    unfolding get_ticket
    taken ticket e =
        let key = ticket_key user_id in
        let a = get_redis_client-connected w connected in
        let b = redis_call-some p (p.redis.get key) w (l.get-reply key w.redis up) in
        let c = l.get-same key w.redis up in
        let d = redis_call-some p (p.redis.delete key) w (l.delete-reply key w.redis up).1 in
        ground arith

  -- While Redis is up, an authorised player is given the ticket that waits under the player's key,
  -- if there is one and it is not empty, and 404 otherwise; either way asking again at that time
  -- gives 404.
  pub get_ticket_once :
      (w : World p)
      → w.has_client ≡ true
      → l.up w.redis ≡ true
      → get_user_id request w ≡ (ok user_id, w)
      → let (reply, v) = get_ticket request w in
        (reply ≡ elim (present (l.text_at w.redis (ticket_key user_id))) [
          | none ↦ no_ticket
          | some ticket ↦ ok ticket
        ])
        × ((get_ticket request v).0 ≡ no_ticket)
  get_ticket_once w connected up found =
      let key = ticket_key user_id in
      elim (Option-cases (present (l.text_at w.redis key))) [
        | inl e ↦ let a = absent w connected up found e in (ground arith, ground arith)
        | inr (ticket, e) ↦
            let a = taken w connected up found ticket e in
            let s = (p.redis.delete key w.redis).1 in
            let v : World p = record w { redis = s } in
            let up1 = l.delete-up key w.redis up in
            let t1 = l.delete-text key w.redis key up in
            let mine = eq_refl key in
            let still = get_user_id-clock request w v refl in
            let b = absent v connected up1 (ground arith) (ground arith) in
            (ground arith, ground arith)
      ]
