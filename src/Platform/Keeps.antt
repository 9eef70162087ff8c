-- ===== src/Platform/Keeps.antt =====
-- Invariants of the tables, one rule for each way to build an action.
use secure_chess.Prelude.{
  suc, String, ◌≡◌, Bool, true, false, Option, none, some, if◌then◌else◌, Bool-cases, inl, inr,
  Option-cases,
}
use secure_chess.Exec.{
  Result, ok, Error, db_error, unique_violation, pure, raise, raise_if, or_raise, gets, try_with,
  ◌>>=◌,
}
use secure_chess.Exec.Laws.{Result-cases}
use secure_chess.Platform.{Platform, World}
use secure_chess.Platform.Tables.{Database}
use secure_chess.Platform.Calls.{
  Act, utc_now, uuid4, token_urlsafe, connect, redis_call, except_psycopg_error,
  except_unique_violation, execute, update, select, as_uuid,
}

-- whether it returns or raises, `m` keeps `Q` of the tables
pub record Keeps (p : Platform) (Q : Database → Type 0) {A : Type 0} (m : Act p A) : Type 0 where
  pub at : (w : World p) → Q w.db → Q (m w).1.db

module _ {p : Platform} {Q : Database → Type 0} where
  module _ {A : Type 0} where
    pub Keeps-pure : (a : A) → Keeps p Q (pure a)
    Keeps-pure a = record { at = λ w h. h }

    pub Keeps-raise : (e : Error) → Keeps p Q (raise {A = A} e)
    Keeps-raise e = record { at = λ w h. h }

    pub Keeps-gets : (f : World p → A) → Keeps p Q (gets f)
    Keeps-gets f = record { at = λ w h. h }

    pub Keeps-select : (f : Database → A) → Keeps p Q (select {p = p} f)
    Keeps-select f = record { at = λ w h. h }

    pub Keeps-or_raise : (o : Option A) (e : Error) → Keeps p Q (or_raise o e)
    Keeps-or_raise none e = record { at = λ w h. h }
    Keeps-or_raise (some a) e = record { at = λ w h. h }

    pub Keeps-redis_call :
        (command : p.redis.Store → Option A × p.redis.Store) → Keeps p Q (redis_call p command)
    unfolding redis_call
    Keeps-redis_call command = record {
      at = λ w h. elim (Option-cases (command w.redis).0) [
        | inl e ↦ rw (e, redis_call) h
        | inr (a, e) ↦ rw (e, redis_call) h
      ];
    }

    pub Keeps-connect : (m : Act p A) → Keeps p Q m → Keeps p Q (connect m)
    unfolding connect
    Keeps-connect m k = record {
      at = λ w h.
          let w' : World p = record w { connections = suc w.connections } in
          elim (Bool-cases (p.db_fault w.connections)) [
            | inl fault ↦ rw (fault, connect) h
            | inr up ↦ elim (Result-cases (m w').0) [
              | inl (a, e) ↦ rw (up, e, connect) (k.at w' h)
              | inr (x, e) ↦ rw (up, e, connect) h
            ]
          ];
    }

  pub Keeps-raise_if : (b : Bool) (e : Error) → Keeps p Q (raise_if b e)
  Keeps-raise_if b e = record { at = λ w h. h }

  pub Keeps-utc_now : Keeps p Q utc_now
  unfolding utc_now
  Keeps-utc_now = record { at = λ w h. h }

  pub Keeps-uuid4 : Keeps p Q uuid4
  unfolding uuid4
  Keeps-uuid4 = record { at = λ w h. h }

  pub Keeps-token_urlsafe : Keeps p Q token_urlsafe
  unfolding token_urlsafe
  Keeps-token_urlsafe = record { at = λ w h. h }

  pub Keeps-as_uuid : (s : String) → Keeps p Q (as_uuid s)
  Keeps-as_uuid s = record {
    at = λ w h. elim (Option-cases (p.uuid_of s)) [
      | inl e ↦ rw (e, as_uuid) h
      | inr (a, e) ↦ rw (e, as_uuid) h
    ];
  }

  pub Keeps-update :
      (f : Database → Database) → ((db : Database) → Q db → Q (f db)) → Keeps p Q (update f)
  Keeps-update f k = record { at = λ w h. k w.db h }

  pub Keeps-execute :
      (f : Database → Result Database)
      → ((db db' : Database) → Q db → f db ≡ ok db' → Q db')
      → Keeps p Q (execute f)
  unfolding execute
  Keeps-execute f k = record {
    at = λ w h. elim (Result-cases (f w.db)) [
      | inl (db', e) ↦ rw (e, execute) (k w.db db' h e)
      | inr (x, e) ↦ rw (e, execute) h
    ];
  }

module _ {p : Platform} {Q : Database → Type 0} {A B : Type 0} where
  pub Keeps-bind :
      (m : Act p A) (f : A → Act p B)
      → Keeps p Q m
      → ((a : A) → Keeps p Q (f a))
      → Keeps p Q (m >>= f)
  Keeps-bind m f km kf = record {
    at = λ w h. elim (Result-cases (m w).0) [
      | inl (a, e) ↦ rw (e, ◌>>=◌) ((kf a).at (m w).1 (km.at w h))
      | inr (x, e) ↦ rw (e, ◌>>=◌) (km.at w h)
    ];
  }

module _ {p : Platform} {Q : Database → Type 0} {A : Type 0} where
  pub Keeps-if :
      (b : Bool) (m n : Act p A) → Keeps p Q m → Keeps p Q n → Keeps p Q (if b then m else n)
  Keeps-if true m n km kn = km
  Keeps-if false m n km kn = kn

  pub Keeps-try_with :
      (m : Act p A) (f : Error → Act p A)
      → Keeps p Q m
      → ((e : Error) → Keeps p Q (f e))
      → Keeps p Q (try_with m f)
  Keeps-try_with m f km kf = record {
    at = λ w h. elim (Result-cases (m w).0) [
      | inl (a, e) ↦ rw (e, try_with) (km.at w h)
      | inr (x, e) ↦ rw (e, try_with) ((kf x).at (m w).1 (km.at w h))
    ];
  }

  pub Keeps-except_psycopg_error : (e f : Error) → Keeps p Q {A = A} (except_psycopg_error e f)
  Keeps-except_psycopg_error e db_error = Keeps-raise e
  Keeps-except_psycopg_error e unique_violation = Keeps-raise e
  Keeps-except_psycopg_error e other = Keeps-raise other

  pub Keeps-except_unique_violation :
      (e f : Error) → Keeps p Q {A = A} (except_unique_violation e f)
  Keeps-except_unique_violation e unique_violation = Keeps-raise e
  Keeps-except_unique_violation e other = Keeps-raise other

pub ruleset keeps_rules = (
  Keeps-pure, Keeps-raise, Keeps-gets, Keeps-select, Keeps-or_raise, Keeps-redis_call,
  Keeps-connect, Keeps-raise_if, Keeps-utc_now, Keeps-uuid4, Keeps-token_urlsafe, Keeps-as_uuid,
  Keeps-bind, Keeps-if, Keeps-try_with, Keeps-except_psycopg_error, Keeps-except_unique_violation,
)
