-- ===== src/Matchmaking/Pairing.antt =====
-- `create_match` of services/api/matchmaking/matchmaking_helpers.py, and what
-- services/api/matchmaking/routes.py does with the two players it has popped.
use secure_chess.Prelude.{
  ℕ, String, ◌++◌, ◌≡◌, refl, ◌⊎◌, true, false, none, some, List, [], ◌∷◌, ◌==◌, ◌||◌, ltb, str_eq,
  exists, add_row, inl, inr, Bool-cases, Option-cases, arith, if◌then◌else◌,
}
use secure_chess.Exec.{Result, ok, err, Error, http, unique_violation, db_error}
use secure_chess.Exec.Laws.{Result-cases}
use secure_chess.Platform.{Platform, World, QueueEntry}
use secure_chess.Platform.Tables.{Match, Database, Json, text, number}
use secure_chess.Platform.Calls.{connect, execute, uuid4, utc_now}
use secure_chess.Platform.CallLaws.{redis_call-cases}
use secure_chess.Jwt.{create_match_ticket}
use secure_chess.Jwt.Keeps.{create_match_ticket-Keeps}
use secure_chess.Sql.{insert_match, int_max}
use secure_chess.Audit.{write_audit_event}
use secure_chess.Audit.AppendOnly.{write_audit_event_lem, write_audit_event_others}
use secure_chess.Matchmaking.{
  GameDetails, MatchDetails, MatchmakingRequestBody, MatchReply, match_found, ticket_key,
  insert_new_match, create_match, pair,
}

insert_match-ok :
    (row : Match) (db db' : Database)
    → insert_match row db ≡ ok db'
    → db' ≡ record db { matches = add_row db.matches row }
unfolding insert_match
insert_match-ok row db db' h = ground arith

insert_match-err :
    (row : Match) (db : Database) (x : Error)
    → insert_match row db ≡ err x
    → (x ≡ db_error) ⊎ (x ≡ unique_violation)
unfolding insert_match
insert_match-err row db x h =
    elim (Bool-cases (row.white_user_id == row.black_user_id || ltb int_max row.increment)) [
      | inl bad ↦ inl (ground arith)
      | inr good ↦
          elim (Bool-cases (exists (λ (m : Match). m.match_id == row.match_id) db.matches)) [
            | inl taken ↦ inr (ground arith)
            | inr free ↦ inl (ground arith)
          ]
    ]

-- the reply for that row
abbrev pub details_of : Platform → Match → MatchDetails
details_of p m = record {
  match_id = p.str_uuid m.match_id;
  white_user_id = p.str_uuid m.white_user_id;
  black_user_id = p.str_uuid m.black_user_id;
  time_control = m.time_control;
  increment = m.increment;
}

-- the player who is not the requester, by the test of the code
abbrev pub other_of : String → QueueEntry → QueueEntry → String
other_of user_id p1 p2 = if str_eq p1.user_id user_id then p2.user_id else p1.user_id

module _ {p : Platform} where
  -- the row that `create_match` inserts
  abbrev pub match_of : GameDetails → ℕ → ℕ → World p → Match
  match_of d white black w = record {
    match_id = p.random_uuid w.draws;
    white_user_id = white;
    black_user_id = black;
    time_control = d.time_control;
    increment = d.increment;
    status = "pending";
    created_at = w.clock;
  }

  -- How `create_match` ends: 400 where the two ids are the same text, with nothing done; 500, with
  -- no table changed; or one pending match of the two players added, and its row returned.
  abbrev pub CreateEnds : GameDetails → World p → Result MatchDetails → World p → Type 0
  CreateEnds d w r v =
      ((str_eq d.user_id_white d.user_id_black ≡ true)
        × (r ≡ err (http 400 "Cannot make match with 2 of the same players"))
        × (v ≡ w))
      ⊎ ((str_eq d.user_id_white d.user_id_black ≡ false)
          × (r ≡ err (http 500 "Server unable to create match"))
          × (v.db ≡ w.db))
      ⊎ ((white black : ℕ) × (str_eq d.user_id_white d.user_id_black ≡ false)
          × (p.uuid_of d.user_id_white ≡ some white)
          × (p.uuid_of d.user_id_black ≡ some black)
          × (r ≡ ok (details_of p (match_of d white black w)))
          × (v.db ≡ record w.db { matches = add_row w.db.matches (match_of d white black w) }))

  -- `create_match` answers 400 where the two ids are the same text, with nothing done; or 500,
  -- with no table changed; or it has added one pending match of the two players, and replies with
  -- its row.
  pub create_match_lem :
      (d : GameDetails) (w : World p) → let (r, v) = create_match d w in CreateEnds d w r v
  unfolding create_match insert_new_match connect execute uuid4 utc_now
  create_match_lem d w = elim (Bool-cases (str_eq d.user_id_white d.user_id_black)) [
    | inl same ↦ inl (same, ground arith, ground arith)
    | inr two ↦ elim (Bool-cases (p.db_fault w.connections)) [
      | inl down ↦ inr (inl (two, ground arith, ground arith))
      | inr up ↦ elim (Option-cases (p.uuid_of d.user_id_white)) [
        | inl bad ↦ inr (inl (two, ground arith, ground arith))
        | inr (white, e) ↦ elim (Option-cases (p.uuid_of d.user_id_black)) [
          | inl bad ↦ inr (inl (two, ground arith, ground arith))
          | inr (black, f) ↦ elim (Result-cases (insert_match (match_of d white black w) w.db)) [
            | inr (x, i) ↦
                let caught = insert_match-err (match_of d white black w) w.db x i in
                inr (inl (two, ground arith, ground arith))
            | inl (db, i) ↦
                let added = insert_match-ok (match_of d white black w) w.db db i in
                inr (inr (white, black, two, e, f, ground arith, ground arith))
          ]
        ]
      ]
    ]
  ]

  -- If a pop of two entries ends in a reply, the reply is the match of these two players, first
  -- come first white, which was added to the tables as pending, with a ticket for it that was
  -- issued to the user whose request did the pop, be that one of the two or not. A ticket was
  -- issued too to the second of the two if the first is that user, and else to the first, and sent
  -- to Redis under the key of that player. Besides the match only the audit log may have changed
  -- in the tables.
  pub pair_lem :
      (body : MatchmakingRequestBody) (user_id : String) (p1 p2 : QueueEntry) (w v : World p)
      (reply : MatchReply)
      → pair body user_id p1 p2 w ≡ (ok reply, v)
      → let d : GameDetails = record {
        user_id_white = p1.user_id;
        user_id_black = p2.user_id;
        time_control = body.time_control;
        increment = body.increment;
      } in
        let other = other_of user_id p1 p2 in
        (white black : ℕ) × (p.uuid_of p1.user_id ≡ some white)
        × (p.uuid_of p2.user_id ≡ some black)
        × (let m = match_of d white black w in
            let found = details_of p m in
            (ticket other_ticket : String) × (reply
              ≡ match_found found ticket (p.ws_base_url ++ "/ws"))
            × (v.db
                ≡ record w.db { matches = add_row w.db.matches m; audit_logs = v.db.audit_logs })
            × (t u x : World p) × (create_match_ticket user_id found.match_id t ≡ (ok ticket, u))
            × (create_match_ticket other found.match_id u ≡ (ok other_ticket, x))
            × (v ≡ record x { redis = (p.redis.set (ticket_key other) other_ticket 90 x.redis).1 }))
  unfolding pair
  pair_lem body user_id p1 p2 w v reply h =
      let d : GameDetails = record {
        user_id_white = p1.user_id;
        user_id_black = p2.user_id;
        time_control = body.time_control;
        increment = body.increment;
      } in
      let other = other_of user_id p1 p2 in
      elim (create_match_lem d w) [
        | inl (same, e, _) ↦ absurd (ground arith)
        | inr (inl (two, e, _)) ↦ absurd (ground arith)
        | inr (inr (white, black, two, e, f, r, added)) ↦
            let w1 = (create_match d w).1 in
            let found = details_of p (match_of d white black w) in
            let metadata : List (String × Json) =
              ("match_id", text found.match_id)
              ∷ ("white_user_id", text found.white_user_id)
              ∷ ("black_user_id", text found.black_user_id)
              ∷ ("time_control", text body.time_control)
              ∷ ("increment", number body.increment)
              ∷ [] in
            let done = write_audit_event_lem "match_start" none none metadata w1 in
            let others = write_audit_event_others "match_start" none none metadata w1 in
            let t = (write_audit_event "match_start" none none metadata w1).1 in
            let (a, u) = create_match_ticket user_id found.match_id t in
            let same1 =
              (create_match_ticket-Keeps {Q = λ db. db ≡ t.db} user_id found.match_id).at t refl in
            elim (Result-cases a) [
              | inr (x, i) ↦ absurd (ground arith)
              | inl (ticket, i) ↦
                  let (b, x) = create_match_ticket other found.match_id u in
                  let same2 =
                    (create_match_ticket-Keeps {Q = λ db. db ≡ t.db} other found.match_id).at u
                      same1 in
                  elim (Result-cases b) [
                    | inr (y, j) ↦ absurd (ground arith)
                    | inl (other_ticket, j) ↦
                        elim (redis_call-cases p (p.redis.set (ticket_key other) other_ticket 90)
                          x) [
                            | inr k ↦ absurd (ground arith)
                            | inl (_, k) ↦ (
                              white,
                              black,
                              e,
                              f,
                              (
                                ticket,
                                other_ticket,
                                ground arith,
                                ground arith,
                                t,
                                u,
                                x,
                                ground arith,
                                ground arith,
                                ground arith,
                              ),
                            )
                          ]
                  ]
            ]
      ]
