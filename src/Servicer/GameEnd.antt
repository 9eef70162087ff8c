-- ===== src/Servicer/GameEnd.antt =====
-- `ReportGameEnd` of services/api/rpc/servicer.py.
use secure_chess.Prelude.{
  ℕ, suc, String, ◌≡◌, refl, ◌⊎◌, inl, inr, Bool, true, false, none, some, List, add_row, ◌==◌,
  ◌||◌, ltb, exists, Bool-cases, Option-cases, arith, [], ◌∷◌,
}
use secure_chess.Exec.{Error, ok, err, db_error, unique_violation}
use secure_chess.Exec.Laws.{Result-cases}
use secure_chess.Platform.{Platform, World}
use secure_chess.Platform.Tables.{Match, Game, Database, text, number, Json}
use secure_chess.Platform.Calls.{Act, connect, execute, utc_now, uuid4}
use secure_chess.Sql.{int_max, insert_game, select_match, complete_match}
use secure_chess.Audit.AppendOnly.{write_audit_event_lem, write_audit_event_others}
use secure_chess.Servicer.{
  GameEndRequest, report_game_end, end_game, record_game, acknowledge, result_of, move_count,
  or_none, join_moves,
}

inserted :
    (row : Game) (db db' : Database)
    → insert_game row db ≡ ok db'
    → db' ≡ record db { games = add_row db.games row }
unfolding insert_game
inserted row db db' h = ground arith

insert_game-err :
    (row : Game) (db : Database) (x : Error)
    → insert_game row db ≡ err x
    → (x ≡ db_error) ⊎ (x ≡ unique_violation)
unfolding insert_game
insert_game-err row db x h =
    elim (Bool-cases (row.white_user_id == row.black_user_id || ltb int_max row.moves)) [
      | inl bad ↦ inl (ground arith)
      | inr good ↦ elim (Bool-cases (exists (λ (g : Game). g.game_id == row.game_id) db.games)) [
        | inl taken ↦ inr (ground arith)
        | inr free ↦ inl (ground arith)
      ]
    ]

abbrev IsPsycopg : Error → Type 0
IsPsycopg x = (x ≡ db_error) ⊎ (x ≡ unique_violation)

module _ {p : Platform} where
  -- the game that the report of the end of the match `m` adds
  abbrev pub game_of : GameEndRequest → Match → World p → Game
  game_of request m w = record {
    game_id = p.random_uuid w.draws;
    match_id = m.match_id;
    white_user_id = m.white_user_id;
    black_user_id = m.black_user_id;
    started_at = w.clock;
    ended_at = w.clock;
    result = result_of request.winner_id (p.str_uuid m.white_user_id) (p.str_uuid m.black_user_id);
    moves = move_count request.moves;
    time_control = m.time_control;
    pgn = join_moves request.moves;
  }

  -- What a report has done to the tables, by its answer: on `acknowledged` the match was found, one
  -- game is added with its players, result, moves and PGN, and the match is completed; else no
  -- table has changed.
  abbrev pub Recorded : GameEndRequest → World p → Bool → World p → Type 0
  Recorded request w false v = v.db ≡ w.db
  Recorded request w true v =
      (id : ℕ) × (p.uuid_of request.match_id ≡ some id)
      × (m : Match) × (select_match id w.db ≡ some m)
      × (v.db.games ≡ add_row w.db.games (game_of request m w))
      × (v.db.matches ≡ (complete_match m.match_id w.db).matches)
      × (v.db.users ≡ w.db.users)
      × (v.db.refresh_tokens ≡ w.db.refresh_tokens)

  -- the world after the transaction of a report
  abbrev after : GameEndRequest → Match → World p → World p
  after request m w = record w {
    db =
        complete_match m.match_id
          (record w.db { games = add_row w.db.games (game_of request m w) });
    connections = suc w.connections;
    draws = suc w.draws;
  }

  ended :
      (request : GameEndRequest) (w : World p) (id : ℕ) (m : Match) (db : Database)
      → p.db_fault w.connections ≡ false
      → p.uuid_of request.match_id ≡ some id
      → select_match id w.db ≡ some m
      → insert_game (game_of request m w) w.db ≡ ok db
      → connect (end_game request) w ≡ (ok (some (game_of request m w).result), after request m w)
  unfolding connect end_game record_game execute utc_now uuid4
  ended request w id m db up e f i =
      let added = inserted (game_of request m w) w.db db i in ground arith

  failed :
      (request : GameEndRequest) (w : World p)
      → p.db_fault w.connections ≡ true
      → (connect (end_game request) w).0 ≡ err db_error
  unfolding connect
  failed request w down = ground arith

  malformed :
      (request : GameEndRequest) (w : World p)
      → p.db_fault w.connections ≡ false
      → p.uuid_of request.match_id ≡ none
      → (connect (end_game request) w).0 ≡ err db_error
  unfolding connect end_game
  malformed request w up e = ground arith

  unknown :
      (request : GameEndRequest) (w : World p) (id : ℕ)
      → p.db_fault w.connections ≡ false
      → p.uuid_of request.match_id ≡ some id
      → select_match id w.db ≡ none
      → let (r, v) = connect (end_game request) w in (r ≡ ok none) × (v.db ≡ w.db)
  unfolding connect end_game
  unknown request w id up e f = (ground arith, ground arith)

  refused :
      (request : GameEndRequest) (w : World p) (id : ℕ) (m : Match) (x : Error)
      → p.db_fault w.connections ≡ false
      → p.uuid_of request.match_id ≡ some id
      → select_match id w.db ≡ some m
      → insert_game (game_of request m w) w.db ≡ err x
      → (connect (end_game request) w).0 ≡ err x
  unfolding connect end_game record_game execute utc_now uuid4
  refused request w id m x up e f i = ground arith

  rolled_back :
      {A : Type 0} (m : Act p A) (w : World p) (x : Error)
      → (connect m w).0 ≡ err x
      → (connect m w).1.db ≡ w.db
  unfolding connect
  rolled_back m w x h = ground arith

  -- how the transaction of a report ends
  transaction_cases :
      (request : GameEndRequest) (w : World p)
      → let (r, v) = connect (end_game request) w in
        ((x : Error) × (r ≡ err x) × IsPsycopg x)
        ⊎ ((r ≡ ok none) × (v.db ≡ w.db))
        ⊎ ((id : ℕ) × (m : Match) × (p.uuid_of request.match_id ≡ some id)
            × (select_match id w.db ≡ some m)
            × (r ≡ ok (some (game_of request m w).result))
            × (v ≡ after request m w))
  transaction_cases request w = elim (Bool-cases (p.db_fault w.connections)) [
    | inl fault ↦ inl (db_error, failed request w fault, inl refl)
    | inr up ↦ elim (Option-cases (p.uuid_of request.match_id)) [
      | inl bad ↦ inl (db_error, malformed request w up bad, inl refl)
      | inr (id, e) ↦ elim (Option-cases (select_match id w.db)) [
        | inl missing ↦ inr (inl (unknown request w id up e missing))
        | inr (m, f) ↦ elim (Result-cases (insert_game (game_of request m w) w.db)) [
          | inr (x, i) ↦
              inl (
                x,
                refused request w id m x up e f i,
                insert_game-err (game_of request m w) w.db x i,
              )
          | inl (db, i) ↦
              let t = ended request w id m db up e f i in
              inr (inr (id, m, e, f, rw t refl, rw t refl))
        ]
      ]
    ]
  ]

  -- Every report is answered. If the answer is `acknowledged`, the match was found, exactly one
  -- game was added, with the match's players, the result, the number of moves and the PGN of the
  -- report, and the match was completed; if it is not, no table has changed.
  pub report_game_end_lem :
      (request : GameEndRequest) (w : World p)
      → let (r, v) = report_game_end request w in
        (acknowledged : Bool) × (r ≡ ok acknowledged) × Recorded request w acknowledged v
  unfolding report_game_end acknowledge complete_match
  report_game_end_lem request w = elim (transaction_cases request w) [
    | inl (x, e, psycopg) ↦
        let back = rolled_back (end_game request) w x e in (false, ground arith, ground arith)
    | inr (inl (e, same)) ↦ (false, ground arith, ground arith)
    | inr (inr (id, m, e, f, r, v)) ↦
        let w1 = after request m w in
        let metadata : List (String × Json) =
          ("match_id", text request.match_id)
          ∷ ("winner_id", or_none request.winner_id)
          ∷ ("result", text (game_of request m w).result)
          ∷ ("move_count", number (move_count request.moves))
          ∷ [] in
        let others = write_audit_event_others "game_end" none none metadata w1 in
        let done = write_audit_event_lem "game_end" none none metadata w1 in
        (true, ground arith, (id, e, m, f, ground arith, ground arith, ground arith, ground arith))
  ]

  -- a report that the database takes
  pub report_game_end-recorded :
      (request : GameEndRequest) (w : World p) (id : ℕ) (m : Match) (db : Database)
      → p.db_fault w.connections ≡ false
      → p.uuid_of request.match_id ≡ some id
      → select_match id w.db ≡ some m
      → insert_game (game_of request m w) w.db ≡ ok db
      → let (r, v) = report_game_end request w in
        (r ≡ ok true)
        × (v.db.games ≡ add_row w.db.games (game_of request m w))
        × (v.db.matches ≡ (complete_match m.match_id w.db).matches)
  unfolding report_game_end acknowledge complete_match
  report_game_end-recorded request w id m db up e f i =
      let t = ended request w id m db up e f i in
      let w1 = after request m w in
      let metadata : List (String × Json) =
        ("match_id", text request.match_id)
        ∷ ("winner_id", or_none request.winner_id)
        ∷ ("result", text (game_of request m w).result)
        ∷ ("move_count", number (move_count request.moves))
        ∷ [] in
      let others = write_audit_event_others "game_end" none none metadata w1 in
      let done = write_audit_event_lem "game_end" none none metadata w1 in
      (ground arith, ground arith, ground arith)
