-- ===== src/Sql/WellFormed.antt =====
-- The constraints of infra/tables.sql as an invariant of the tables, kept by every statement.
use secure_chess.Prelude.{
  ℕ, ◌≡◌, ◌≢◌, refl, String, Bool, true, false, ltb, Option, none, some, ◌==◌, ◌||◌, str_eq, exists,
  add_row, exists-add_row, exists-update_where, List, ◌∙◌, All, Distinct, All-add_row, All-map,
  All-update_where, Distinct-add_row, Distinct-update_where, Bool-cases, inl, inr, arith,
}
use secure_chess.Exec.{ok}
use secure_chess.Platform.Tables.{User, RefreshToken, Match, Game, AuditLog, Database}
use secure_chess.Sql.{
  int_max, has_user, is_known, has_match, insert_user, insert_refresh_token, insert_match,
  insert_game, insert_audit_log, revoke, complete_match,
}

abbrev pub same_user : User → User → Bool
same_user a b = a.user_id == b.user_id || str_eq a.username b.username || str_eq a.email b.email

abbrev pub same_token : RefreshToken → RefreshToken → Bool
same_token a b = a.token_id == b.token_id || str_eq a.token_hash b.token_hash

abbrev pub same_match : Match → Match → Bool
same_match a b = a.match_id == b.match_id

abbrev pub same_game : Game → Game → Bool
same_game a b = a.game_id == b.game_id

abbrev pub same_event : AuditLog → AuditLog → Bool
same_event a b = a.audit_id == b.audit_id

-- a value that fits a column of type INT
abbrev pub IsInt : ℕ → Type 0
IsInt n = ltb int_max n ≡ false

abbrev pub HasPlayers : List User → ℕ → ℕ → Type 0
HasPlayers users white black =
    (white ≢ black) × (has_user white users ≡ true) × (has_user black users ≡ true)

abbrev pub IsOwned : List User → RefreshToken → Type 0
IsOwned users t = has_user t.user_id users ≡ true

abbrev pub MatchIsSound : List User → Match → Type 0
MatchIsSound users m = HasPlayers users m.white_user_id m.black_user_id × IsInt m.increment

abbrev pub GameIsSound : List User → List Match → Game → Type 0
GameIsSound users matches g =
    HasPlayers users g.white_user_id g.black_user_id
    × (has_match g.match_id matches ≡ true)
    × IsInt g.moves

abbrev pub EventIsSound : List User → AuditLog → Type 0
EventIsSound users a = is_known a.user_id users ≡ true

-- No two users share an id, a name or an email, no two tokens an id or a hash, and no two matches,
-- games or events an id; the owner of a token, the players of a match and of a game, the match of a
-- game and the user of an event exist; the players of a match and of a game are two; the increment of
-- a match and the moves of a game fit INT.
pub record IsWellFormed (db : Database) : Type 0 where
  pub users : Distinct same_user db.users
  pub tokens : Distinct same_token db.refresh_tokens
  pub owners : All (IsOwned db.users) db.refresh_tokens
  pub match_ids : Distinct same_match db.matches
  pub game_ids : Distinct same_game db.games
  pub event_ids : Distinct same_event db.audit_logs
  pub matches : All (MatchIsSound db.users) db.matches
  pub games : All (GameIsSound db.users db.matches) db.games
  pub events : All (EventIsSound db.users) db.audit_logs

module _ (users : List User) (row : User) where
  has_user-add_row : (id : ℕ) → has_user id users ≡ true → has_user id (add_row users row) ≡ true
  has_user-add_row id h = rw (exists-add_row, h) refl

  is_known-add_row :
      (id : Option ℕ) → is_known id users ≡ true → is_known id (add_row users row) ≡ true
  is_known-add_row none h = refl
  is_known-add_row (some id) h = has_user-add_row id h

  HasPlayers-add_row :
      (white black : ℕ) → HasPlayers users white black → HasPlayers (add_row users row) white black
  HasPlayers-add_row white black (ne, a, b) =
      (ne, has_user-add_row white a, has_user-add_row black b)

module _ (db db' : Database) (h : IsWellFormed db) where
  pub insert_user-IsWellFormed : (row : User) → insert_user row db ≡ ok db' → IsWellFormed db'
  unfolding insert_user
  insert_user-IsWellFormed row e = elim (Bool-cases (exists (λ u. same_user u row) db.users)) [
    | inl taken ↦ absurd (ground arith)
    | inr free ↦
        let new : db' ≡ record db { users = add_row db.users row } = ground arith in
        rw new (record {
          users = Distinct-add_row same_user db.users row h.users free;
          tokens = h.tokens;
          owners =
              All-map _ _ (λ t. has_user-add_row db.users row t.user_id) db.refresh_tokens h.owners;
          match_ids = h.match_ids;
          game_ids = h.game_ids;
          event_ids = h.event_ids;
          matches =
              All-map _ _
                (λ m s. (HasPlayers-add_row db.users row m.white_user_id m.black_user_id s.0, s.1))
                db.matches h.matches;
          games =
              All-map _ _
                (λ g s.
                  (HasPlayers-add_row db.users row g.white_user_id g.black_user_id s.0, s.1, s.2))
                db.games h.games;
          events =
              All-map _ _ (λ a. is_known-add_row db.users row a.user_id) db.audit_logs h.events;
        })
  ]

  pub insert_refresh_token-IsWellFormed :
      (row : RefreshToken) → insert_refresh_token row db ≡ ok db' → IsWellFormed db'
  unfolding insert_refresh_token
  insert_refresh_token-IsWellFormed row e =
      elim (Bool-cases (exists (λ t. same_token t row) db.refresh_tokens)) [
        | inl taken ↦ absurd (ground arith)
        | inr free ↦
            let known : has_user row.user_id db.users ≡ true = ground arith in
            let new : db' ≡ record db { refresh_tokens = add_row db.refresh_tokens row } =
              ground arith in
            rw new (record {
              users = h.users;
              tokens = Distinct-add_row same_token db.refresh_tokens row h.tokens free;
              owners = All-add_row (IsOwned db.users) db.refresh_tokens row h.owners known;
              match_ids = h.match_ids;
              matches = h.matches;
              game_ids = h.game_ids;
              games = h.games;
              event_ids = h.event_ids;
              events = h.events;
            })
      ]

  pub insert_match-IsWellFormed : (row : Match) → insert_match row db ≡ ok db' → IsWellFormed db'
  unfolding insert_match
  insert_match-IsWellFormed row e =
      let new_id : exists (λ m. same_match m row) db.matches ≡ false = ground arith in
      let sound : MatchIsSound db.users row = ground arith in
      let new : db' ≡ record db { matches = add_row db.matches row } = ground arith in
      rw new (record {
        users = h.users;
        tokens = h.tokens;
        owners = h.owners;
        match_ids = Distinct-add_row same_match db.matches row h.match_ids new_id;
        game_ids = h.game_ids;
        matches = All-add_row (MatchIsSound db.users) db.matches row h.matches sound;
        games = All-map _ _ (λ g s. (s.0, rw (exists-add_row, s.1) refl, s.2)) db.games h.games;
        event_ids = h.event_ids;
        events = h.events;
      })

  pub insert_game-IsWellFormed : (row : Game) → insert_game row db ≡ ok db' → IsWellFormed db'
  unfolding insert_game
  insert_game-IsWellFormed row e =
      let new_id : exists (λ g. same_game g row) db.games ≡ false = ground arith in
      let sound : GameIsSound db.users db.matches row = ground arith in
      let new : db' ≡ record db { games = add_row db.games row } = ground arith in
      rw new (record {
        users = h.users;
        tokens = h.tokens;
        owners = h.owners;
        match_ids = h.match_ids;
        matches = h.matches;
        game_ids = Distinct-add_row same_game db.games row h.game_ids new_id;
        games = All-add_row (GameIsSound db.users db.matches) db.games row h.games sound;
        event_ids = h.event_ids;
        events = h.events;
      })

  pub insert_audit_log-IsWellFormed :
      (row : AuditLog) → insert_audit_log row db ≡ ok db' → IsWellFormed db'
  unfolding insert_audit_log
  insert_audit_log-IsWellFormed row e =
      let new_id : exists (λ a. same_event a row) db.audit_logs ≡ false = ground arith in
      let known : EventIsSound db.users row = ground arith in
      let new : db' ≡ record db { audit_logs = add_row db.audit_logs row } = ground arith in
      rw new (record {
        users = h.users;
        tokens = h.tokens;
        owners = h.owners;
        match_ids = h.match_ids;
        matches = h.matches;
        game_ids = h.game_ids;
        games = h.games;
        event_ids = Distinct-add_row same_event db.audit_logs row h.event_ids new_id;
        events = All-add_row (EventIsSound db.users) db.audit_logs row h.events known;
      })

  pub revoke-IsWellFormed :
      (token_hash : String) (now : ℕ) → IsWellFormed (revoke token_hash now db)
  unfolding revoke
  revoke-IsWellFormed token_hash now = record {
    users = h.users;
    tokens =
        Distinct-update_where same_token _ _ (λ x y. refl) (λ x y. refl) db.refresh_tokens h.tokens;
    owners = All-update_where (IsOwned db.users) _ _ (λ t k. k) db.refresh_tokens h.owners;
    match_ids = h.match_ids;
    matches = h.matches;
    game_ids = h.game_ids;
    games = h.games;
    event_ids = h.event_ids;
    events = h.events;
  }

  pub complete_match-IsWellFormed : (match_id : ℕ) → IsWellFormed (complete_match match_id db)
  unfolding complete_match
  complete_match-IsWellFormed match_id = record {
    users = h.users;
    tokens = h.tokens;
    owners = h.owners;
    match_ids =
        Distinct-update_where same_match _ _ (λ x y. refl) (λ x y. refl) db.matches h.match_ids;
    game_ids = h.game_ids;
    matches = All-update_where (MatchIsSound db.users) _ _ (λ m k. k) db.matches h.matches;
    games =
        All-map _ _ (λ g s. (s.0, exists-update_where _ _ _ (λ m. refl) db.matches ∙ s.1, s.2))
          db.games h.games;
    event_ids = h.event_ids;
    events = h.events;
  }
