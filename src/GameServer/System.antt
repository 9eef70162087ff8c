-- ===== src/GameServer/System.antt =====
-- The game server with the control plane: services/gameserver/src/server.cpp (`run`, the workers
-- and the deferred functions) beside services/api, as one transition system.
use secure_chess.Prelude.{
  ℕ, zero, suc, String, ◌≡◌, true, Option, none, some, List, [], ◌∷◌, add_row, ltb,
}
use secure_chess.Exec.{ok, err}
use secure_chess.Platform.{Platform, World}
use secure_chess.Service.{Step}
use secure_chess.GameServer.{Engine, Server, Job, Deferred, is_open}
use secure_chess.GameServer.Handlers.{on_open, on_message, on_close, run_deferred}
use secure_chess.GameServer.GrpcClient.{Delivery, run_job}

-- the state of `Server` before its first client
abbrev pub fresh_server : {e : Engine} → Server e
fresh_server = record {
  rooms = [];
  sockets = [];
  next_socket_id = 1;
  jobs = [];
  deferred = [];
  sent = [];
  connected_sockets = record { ups = 0; downs = 0 };
  active_games = record { ups = 0; downs = 0 };
  moves_total = 0;
  errors = [];
}

abbrev pub grpc_worker_count : ℕ
grpc_worker_count = 4

-- the n-th of the jobs, and the others
unfoldable pub take_job : ℕ → List Job → Option (Job × List Job)
take_job n [] = none
take_job zero (job ∷ jobs) = some (job, jobs)
take_job (suc n) (job ∷ jobs) = elim (take_job n jobs) [
  | none ↦ none
  | some r ↦ some (r.0, job ∷ r.1)
]

abbrev pub defer : Option Deferred → List Deferred → List Deferred
defer none rest = rest
defer (some d) rest = add_row rest d

pub record System (e : Engine) (p : Platform) : Type 0 where
  pub control : World p
  pub game : Server e

module _ {e : Engine} {p : Platform} where
  -- a worker runs a job to its end, and appends what it defers
  abbrev pub work : Delivery → Delivery → Job → List Job → System e p → System e p
  work net net' job waiting s =
      let (r, control) = run_job net net' job s.control in
      record {
        control = control;
        game = record s.game {
          jobs = waiting;
          deferred = elim r [ ok d ↦ defer d s.game.deferred | err x ↦ s.game.deferred ];
        };
      }

  -- A step. A handler that raises ends the process, so only one that returns makes a step; only an
  -- open socket has messages and a close. The jobs that are not done are taken in order by the
  -- workers, so that the one which is done next is among the first of them, as many as there are
  -- workers.
  pub data SystemStep : System e p → System e p → Type 0 where
    on_control :
        {w v : World p} {g : Server e}
        → Step w v
        → SystemStep (record { control = w; game = g }) (record { control = v; game = g })
    opened :
        {w : World p} {g h : Server e}
        → on_open g ≡ (ok tt, h)
        → SystemStep (record { control = w; game = g }) (record { control = w; game = h })
    received :
        {w : World p} {g h : Server e}
        → (id : ℕ) → (msg : String) → (now_ms : ℕ) → is_open id g.sockets ≡ true
        → on_message id msg now_ms g ≡ (ok tt, h)
        → SystemStep (record { control = w; game = g }) (record { control = w; game = h })
    closed :
        {w : World p} {g h : Server e}
        → (id : ℕ) → is_open id g.sockets ≡ true
        → on_close id g ≡ (ok tt, h)
        → SystemStep (record { control = w; game = g }) (record { control = w; game = h })
    worked :
        {s : System e p}
        → (net net' : Delivery) → (n : ℕ) → (job : Job) → (waiting : List Job)
        → ltb n grpc_worker_count ≡ true
        → take_job n s.game.jobs ≡ some (job, waiting)
        → SystemStep s (work net net' job waiting s)
    ran :
        {w : World p} {g h : Server e}
        → (d : Deferred) → (rest : List Deferred) → g.deferred ≡ d ∷ rest
        → run_deferred d (record g { deferred = rest }) ≡ (ok tt, h)
        → SystemStep (record { control = w; game = g }) (record { control = w; game = h })

  -- any number of steps
  pub data SystemSteps : System e p → System e p → Type 0 where
    stop : {s : System e p} → SystemSteps s s
    more : {s t u : System e p} → SystemStep s t → SystemSteps t u → SystemSteps s u
