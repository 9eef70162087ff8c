-- ===== src/Tests/Accounts.antt =====
-- The theorems on single calls of the auth routes, at Ann's.
use secure_chess.Prelude.{ℕ, suc, none, arith, Bool, none, ltb, arith}
use secure_chess.Platform.{Platform, World}
use secure_chess.Sql.WellFormed.{IsWellFormed}
use secure_chess.Auth.{SignInBody}
use secure_chess.Service.{stop, more, served, call_signup, serve}
use secure_chess.Service.Invariants.{steps-IsWellFormed}
use secure_chess.Sample.Values.{sample, start, no_rows}
use secure_chess.Tests.Scene.{request, ann}

pub no_rows-IsWellFormed : IsWellFormed no_rows
no_rows-IsWellFormed = record {
  users = tt;
  tokens = tt;
  owners = tt;
  match_ids = tt;
  game_ids = tt;
  event_ids = tt;
  matches = tt;
  games = tt;
  events = tt;
}

steps-IsWellFormed_example : IsWellFormed (serve {p = sample} (call_signup ann request) start).1.db
steps-IsWellFormed_example =
    steps-IsWellFormed start (serve (call_signup ann request) start).1
      (more (served (call_signup ann request)) stop) no_rows-IsWellFormed

abbrev wrong_password : SignInBody
wrong_password = record { username = "ann"; password = "other" }
