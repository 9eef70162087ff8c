-- ===== src/Auth/Accounts.antt =====
-- `signup` of services/api/auth/jwt_routes.py, and how long an account lasts.
use Prim.Native.String.{count}
use secure_chess.Prelude.{
  suc, String, ◌≡◌, refl, ◌⊎◌, Bool, true, false, none, some, List, [], ◌∷◌, ◌==◌, ◌||◌, str_eq,
  eq_refl, ltb, exists, add_row, exists-weaken, find_first-add_row_new, find_first-add_row_old, inl,
  inr, Bool-cases, Option-cases, arith,
}
use secure_chess.Exec.{ok, err, Error, http, value_error, unique_violation, db_error}
use secure_chess.Exec.Laws.{Result-cases}
use secure_chess.Platform.{Platform, World}
use secure_chess.Platform.Tables.{User, Database, Json, text}
use secure_chess.Platform.Calls.{connect, uuid4, utc_now, execute}
use secure_chess.UserHelpers.{Request}
use secure_chess.RateLimit.{get_client_ip}
use secure_chess.Sql.{
  insert_user, select_user, insert_refresh_token, insert_match, insert_game, insert_audit_log,
  revoke, complete_match,
}
use secure_chess.Sql.Keeps.{IsKept}
use secure_chess.Audit.{write_audit_event}
use secure_chess.Audit.AppendOnly.{write_audit_event_lem, write_audit_event_others}
use secure_chess.Auth.{SignupBody, SignupReply, hash_password, insert_new_user, signup_handler}

abbrev pub same_account : User → User → Bool
same_account row u =
    u.user_id == row.user_id || str_eq u.username row.username || str_eq u.email row.email

insert_user-ok :
    (row : User) (db db' : Database)
    → insert_user row db ≡ ok db'
    → (exists (same_account row) db.users ≡ false)
      × (db' ≡ record db { users = add_row db.users row })
unfolding insert_user
insert_user-ok row db db' h = elim (Bool-cases (exists (same_account row) db.users)) [
  | inl taken ↦ absurd (ground arith)
  | inr free ↦ (free, ground arith)
]

insert_user-err :
    (row : User) (db : Database) (x : Error)
    → insert_user row db ≡ err x
    → (x ≡ unique_violation) × (exists (same_account row) db.users ≡ true)
unfolding insert_user
insert_user-err row db x h = elim (Bool-cases (exists (same_account row) db.users)) [
  | inl taken ↦ (ground arith, taken)
  | inr free ↦ absurd (ground arith)
]

named : String → User → Bool
named username u = str_eq u.username username

-- the new row is the one that a search for its name finds
select_user-insert_user :
    (row : User) (db db' : Database)
    → insert_user row db ≡ ok db'
    → select_user row.username db' ≡ some row
unfolding select_user
select_user-insert_user row db db' h =
    let (free, new) = insert_user-ok row db db' h in
    let mine = eq_refl row.username in
    let wider =
      exists-weaken (λ (u : User). str_eq u.username row.username) (same_account row)
        (λ u k. ground arith) db.users in
    let absent : exists (λ (u : User). str_eq u.username row.username) db.users ≡ false =
      ground (arith, free, wider) in
    rw new (find_first-add_row_new _ db.users row absent mine)

select_user_same :
    (username : String) (db db' : Database)
    → db'.users ≡ db.users
    → select_user username db' ≡ select_user username db
unfolding select_user
select_user_same username db db' same = rw same refl

-- that the row is the account of that name
abbrev pub HasAccount : String → User → Database → Type 0
HasAccount username row db = select_user username db ≡ some row

pub HasAccount-IsKept : (username : String) (row : User) → IsKept (HasAccount username row)
unfolding insert_user insert_refresh_token insert_match insert_game insert_audit_log revoke
    complete_match select_user
HasAccount-IsKept username row = record {
  by_insert_user = λ new db db' h i.
      let added = (insert_user-ok new db db' i).1 in
      rw added (find_first-add_row_old _ db.users new row h);
  by_insert_refresh_token =
      λ r db db' h i. (let same : db'.users ≡ db.users = ground arith in rw same h);
  by_insert_match = λ r db db' h i. (let same : db'.users ≡ db.users = ground arith in rw same h);
  by_insert_game = λ r db db' h i. (let same : db'.users ≡ db.users = ground arith in rw same h);
  by_insert_audit_log =
      λ r db db' h i. (let same : db'.users ≡ db.users = ground arith in rw same h);
  by_revoke = λ hash now db h. h;
  by_complete_match = λ match_id db h. h;
}

module _ {p : Platform} (body : SignupBody) where
  -- the row that a sign-up inserts
  abbrev pub account_of : String → World p → User
  account_of password_hash w = record {
    user_id = p.random_uuid (suc w.draws);
    username = body.username;
    email = body.email;
    password_hash = password_hash;
    created_at = w.clock;
  }

  -- the reply for that row
  abbrev pub account_reply : World p → SignupReply
  account_reply w = record {
    user_id = p.str_uuid (p.random_uuid (suc w.draws));
    username = body.username;
    email = body.email;
    created_at = w.clock;
  }

  pub signup_handler_lem :
      (request : Request) (w : World p)
      → let (r, v) = signup_handler body request w in
        ((ltb (count body.password) 6 ≡ true)
          × (r ≡ err (http 400 "Password must be at least longer than 6 characters"))
          × (v ≡ w))
        ⊎ ((x : Error) × (r ≡ err x)
            × (v.db ≡ w.db)
            × ((p.hash body.password (p.random_uuid w.draws) ≡ none)
                ⊎ (p.db_fault w.connections ≡ true)
                ⊎ ((hash : String) × (x ≡ http 409 "Username or email already exists")
                    × (exists (same_account (account_of hash w)) w.db.users ≡ true))))
        ⊎ ((hash : String) × (p.hash body.password (p.random_uuid w.draws) ≡ some hash)
            × (r ≡ ok (account_reply w))
            × (exists (same_account (account_of hash w)) w.db.users ≡ false)
            × (HasAccount body.username (account_of hash w) v.db)
            × (v.db ≡ record w.db {
              users = add_row w.db.users (account_of hash w);
              audit_logs = v.db.audit_logs;
            }))
  unfolding signup_handler hash_password insert_new_user connect uuid4 utc_now execute
  signup_handler_lem request w = elim (Bool-cases (ltb (count body.password) 6)) [
    | inl short ↦ inl (short, ground arith, ground arith)
    | inr long ↦ elim (Option-cases (p.hash body.password (p.random_uuid w.draws))) [
      | inl broken ↦ inr (inl (value_error "password", ground arith, ground arith, inl broken))
      | inr (hash, e) ↦ elim (Bool-cases (p.db_fault w.connections)) [
        | inl down ↦ inr (inl (db_error, ground arith, ground arith, inr (inl down)))
        | inr up ↦ elim (Result-cases (insert_user (account_of hash w) w.db)) [
          | inr (x, i) ↦
              let (unique, taken) = insert_user-err (account_of hash w) w.db x i in
              inr (
                inl (
                  http 409 "Username or email already exists",
                  ground arith,
                  ground arith,
                  inr (inr (hash, refl, taken)),
                ))
          | inl (db, i) ↦
              let (free, new) = insert_user-ok (account_of hash w) w.db db i in
              let found = select_user-insert_user (account_of hash w) w.db db i in
              let w1 : World p = record w {
                db = db;
                draws = suc (suc w.draws);
                connections = suc w.connections;
              } in
              let user = some (p.str_uuid (account_of hash w).user_id) in
              let metadata : List (String × Json) = ("username", text body.username) ∷ [] in
              let done =
                write_audit_event_lem "signup" user (some (get_client_ip request)) metadata w1 in
              let others =
                write_audit_event_others "signup" user (some (get_client_ip request)) metadata w1 in
              let v =
                (write_audit_event "signup" user (some (get_client_ip request)) metadata w1).1 in
              let same = select_user_same body.username db v.db (rw others refl) in
              inr (inr (hash, e, ground arith, free, ground arith, ground arith))
        ]
      ]
    ]
  ]
