-- ===== src/Servicer/Tickets.antt =====
-- `VerifyMatchTicket` of services/api/rpc/servicer.py.
use secure_chess.Prelude.{
  ◌+◌, ◌*◌, ◌≤◌, ◌≡◌, String, true, some, leb, if◌then◌else◌, arith, inl, inr,
}
use secure_chess.Exec.{ok}
use secure_chess.Exec.Laws.{Result-cases}
use secure_chess.Platform.{Platform, World, Claims, payload}
use secure_chess.Platform.Calls.{timestamp}
use secure_chess.Jwt.{decode_token, create_match_ticket, ticket_payload, seconds}
use secure_chess.Jwt.Laws.{JwtLaws}
use secure_chess.Jwt.Decode.{decode_token-type}
use secure_chess.Jwt.Issue.{until, create_match_ticket_lem}
use secure_chess.Servicer.{VerifyTicketResponse, invalid_ticket, verify_match_ticket, seat}

module _ {p : Platform} where
  -- A ticket that was issued to a player for a match lets in that player to that match, at every
  -- later time until 60 seconds have gone by (to the second), and is refused from then on; the
  -- check changes nothing.
  pub verify_match_ticket-create_match_ticket :
      (l : JwtLaws p) (user_id match_id ticket : String) (w w' v : World p)
      → create_match_ticket user_id match_id w ≡ (ok ticket, w')
      → w.clock ≤ v.clock
      → verify_match_ticket ticket v ≡ (
        ok (
            if leb (timestamp (w.clock + seconds 60) * 1000000) v.clock
            then invalid_ticket
            else record { valid = true; match_id = match_id; player_id = user_id }),
        v,
      )
  unfolding verify_match_ticket seat
  verify_match_ticket-create_match_ticket l user_id match_id ticket w w' v made later =
      let (t, made', size, accepted) = create_match_ticket_lem l user_id match_id w v later in
      let same : t ≡ ticket = ground arith in
      let c = ticket_payload (p.str_uuid (p.random_uuid w.draws)) user_id match_id w.clock in
      let answer : decode_token ticket "match_ticket" v ≡ (until c v.clock, v) =
        rw (← same) accepted in
      ground arith

  -- Whoever is let in has shown a token that PyJWT accepts now, of type "match_ticket", and is
  -- let in as its `sub` to its `match_id`: no access or refresh token opens a seat.
  pub verify_match_ticket-valid :
      (ticket : String) (w v : World p) (r : VerifyTicketResponse)
      → verify_match_ticket ticket w ≡ (ok r, v)
      → r.valid ≡ true
      → (c : Claims) × (p.decode ticket p.jwt_secret p.jwt_algo w.clock ≡ payload c)
        × (c.type ≡ some "match_ticket")
        × (c.match_id ≡ some r.match_id)
        × (c.sub ≡ some r.player_id)
  unfolding verify_match_ticket seat
  verify_match_ticket-valid ticket w v r h valid =
      elim (Result-cases (decode_token ticket "match_ticket" w).0) [
        | inr (x, e) ↦ absurd (ground arith)
        | inl (c, e) ↦
            let (type, accepted, same) =
              decode_token-type ticket "match_ticket" w (decode_token ticket "match_ticket" w).1 c
                (ground arith) in
            (c, accepted, type, ground arith, ground arith)
      ]
