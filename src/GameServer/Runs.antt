-- ===== src/GameServer/Runs.antt =====
-- What every run of the game server with the control plane keeps.
use secure_chess.Prelude.{◌≡◌, refl, sym, ap, Bool, true, false, String}
use secure_chess.Exec.{Result, ok}
use secure_chess.Platform.{Platform, World}
use secure_chess.Platform.Tables.{Database}
use secure_chess.Platform.Calls.{Act}
use secure_chess.Platform.Keeps.{Keeps, Keeps-bind, Keeps-pure, Keeps-try_with}
use secure_chess.Sql.WellFormed.{IsWellFormed}
use secure_chess.Sql.Keeps.{IsKept, IsWellFormed-IsKept}
use secure_chess.Service.Invariants.{step_keeps}
use secure_chess.Servicer.Invariant.{
  verify_match_ticket-Keeps, report_game_end-Keeps, create_resume_token-Keeps,
  resolve_resume_token-Keeps,
}
use secure_chess.GameServer.{Engine, Server, Job, verify_job, resume_job, report_job}
use secure_chess.GameServer.Consistent.{IsConsistent, IsConsistent-core}
use secure_chess.GameServer.Invariant.{
  on_message-Steady, on_open-Steady, on_close-Steady, run_deferred-Steady,
}
use secure_chess.GameServer.GrpcClient.{
  Delivery, delivered, request_lost, reply_lost, remote, client_verify, client_report,
  client_create, client_resolve, token_if, run_job,
}
use secure_chess.GameServer.System.{
  System, SystemStep, on_control, opened, received, closed, worked, ran, SystemSteps, stop, more,
  fresh_server,
}

module _ {p : Platform} {Q : Database → Type 0} (k : IsKept Q) where
  Keeps-remote :
      {A : Type 0} (net : Delivery) (m : Act p A) → Keeps p Q m → Keeps p Q (remote net m)
  unfolding remote
  Keeps-remote delivered m km = search (Keeps-bind, Keeps-pure, Keeps-try_with)
  Keeps-remote request_lost m km = Keeps-pure _
  Keeps-remote reply_lost m km = search (Keeps-bind, Keeps-pure, Keeps-try_with)

  token_if-Keeps :
      (valid : Bool) (net : Delivery) (match_id user_id color : String)
      → Keeps p Q (token_if valid net match_id user_id color)
  unfolding client_create
  token_if-Keeps true net match_id user_id color =
      search (Keeps-bind, Keeps-pure, Keeps-remote, create_resume_token-Keeps)
  token_if-Keeps false net match_id user_id color = Keeps-pure _

  -- A job keeps every property of the tables that the statements keep.
  run_job-Keeps : (net net' : Delivery) (job : Job) → Keeps p Q (run_job net net' job)
  unfolding run_job client_verify client_resolve client_report
  run_job-Keeps net net' (verify_job id ticket color) =
      search (Keeps-bind, Keeps-pure, Keeps-remote, verify_match_ticket-Keeps, token_if-Keeps) depth
        10
  run_job-Keeps net net' (resume_job id token) =
      search (Keeps-bind, Keeps-pure, Keeps-remote, resolve_resume_token-Keeps, token_if-Keeps)
        depth 10
  run_job-Keeps net net' (report_job game_id winner_id moves) =
      search (Keeps-bind, Keeps-pure, Keeps-remote, report_game_end-Keeps) depth 10

module _ {e : Engine} where
  fresh_server-IsConsistent : IsConsistent (fresh_server {e = e})
  fresh_server-IsConsistent = record {
    rooms = tt;
    sockets = tt;
    ids = tt;
    games = refl;
    connected = refl;
    boards = tt;
  }

  ended :
      {h : Server e} {x : Result {0} Unit × Server e}
      → x ≡ (ok tt, h)
      → IsConsistent x.1
      → IsConsistent h
  ended r k = rw (sym (ap (λ y. y.1) r)) k

  module _ {p : Platform} where
    -- the invariants of both servers
    abbrev pub IsSound : System e p → Type 0
    IsSound s = IsConsistent s.game × IsWellFormed s.control.db

    step-IsSound : (s t : System e p) → SystemStep s t → IsSound s → IsSound t
    step-IsSound s t (on_control c) (h, k) = (h, step_keeps IsWellFormed-IsKept c k)
    step-IsSound s t (opened {g = g} r) (h, k) = (ended r (on_open-Steady.at g h), k)
    step-IsSound s t (received {g = g} id msg now _ r) (h, k) =
        (ended r ((on_message-Steady id msg now).at g h), k)
    step-IsSound s t (closed {g = g} id _ r) (h, k) = (ended r ((on_close-Steady id).at g h), k)
    step-IsSound s t (worked net net' n job waiting _ _) (h, k) = (
      IsConsistent-core s.game t.game (refl, refl, refl, refl, refl) h,
      (run_job-Keeps IsWellFormed-IsKept net net' job).at s.control k,
    )
    step-IsSound s t (ran {g = g} d rest _ r) (h, k) =
        let g' = record g { deferred = rest } in
        let h' = IsConsistent-core g g' (refl, refl, refl, refl, refl) h in
        (ended r ((run_deferred-Steady d).at g' h'), k)

    steps_keep-IsSound : {s t : System e p} → SystemSteps s t → IsSound s → IsSound t
    steps_keep-IsSound stop h = h
    steps_keep-IsSound (more {s = s} {t = t} step steps) h =
        steps_keep-IsSound steps (step-IsSound s t step h)

    -- Whatever happens to a game server and a control plane with well-formed tables: in every state
    -- that they reach the tables are well-formed; no two rooms of the game server share an id, nor
    -- two open sockets; both gauges show what they count, the rooms and the open sockets; and the
    -- board of every room is the one that its moves give from the start, each of them legal where
    -- it was made.
    pub steps-IsSound :
        (w v : World p) (g : Server e)
        → SystemSteps
            (record { control = w; game = fresh_server })
            (record { control = v; game = g })
        → IsWellFormed w.db
        → IsSound (record { control = v; game = g })
    steps-IsSound w v g steps k = steps_keep-IsSound steps (fresh_server-IsConsistent, k)
