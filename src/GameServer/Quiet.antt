-- ===== src/GameServer/Quiet.antt =====
-- The operations of the game server that leave its rooms, sockets and gauges alone.
use secure_chess.Prelude.{
  ℕ, suc, add_row, String, ◌≡◌, refl, ◌∙◌, Bool, true, false, Option, none, some, find_first,
  Option-cases, inl, inr, ◌⊎◌, if◌then◌else◌,
}
use secure_chess.Exec.{ok, err, Error, closed_socket, pure, modify, or_raise, ◌>>=◌}
use secure_chess.Exec.Laws.{Result-cases}
use secure_chess.GameServer.{
  Engine, Server, PerSocketData, Message, Job, MatchRoom, GameResult, result_lose, Live, is_socket,
  get_user_data, send, send_if, broadcast_to_room, reply_error, enqueue_grpc_job,
}
use secure_chess.GameServer.Handlers.{value, user_of, winner_of}

module _ {e : Engine} where
  -- the rooms, the sockets, the next id and the gauges are the same
  abbrev pub SameCore : Server e → Server e → Type 0
  SameCore s t =
      (t.rooms ≡ s.rooms)
      × (t.sockets ≡ s.sockets)
      × (t.next_socket_id ≡ s.next_socket_id)
      × (t.connected_sockets ≡ s.connected_sockets)
      × (t.active_games ≡ s.active_games)

  pub record Quiet {A : Type 0} (m : Live e A) : Type 0 where
    pub at : (s : Server e) → SameCore s (m s).1

  SameCore-trans : (s t u : Server e) → SameCore s t → SameCore t u → SameCore s u
  SameCore-trans s t u h k = (k.0 ∙ h.0, k.1 ∙ h.1, k.2 ∙ h.2, k.3 ∙ h.3, k.4 ∙ h.4)

  module _ {A : Type 0} where
    pub Quiet-pure : (a : A) → Quiet (pure a)
    Quiet-pure a = record { at = λ s. (refl, refl, refl, refl, refl) }

    pub Quiet-or_raise : (o : Option A) (x : Error) → Quiet (or_raise o x)
    Quiet-or_raise none x = record { at = λ s. (refl, refl, refl, refl, refl) }
    Quiet-or_raise (some a) x = record { at = λ s. (refl, refl, refl, refl, refl) }

    pub Quiet-if : (b : Bool) (m n : Live e A) → Quiet m → Quiet n → Quiet (if b then m else n)
    Quiet-if true m n km kn = km
    Quiet-if false m n km kn = kn

    pub Quiet-bind :
        {B : Type 0} (m : Live e A) (f : A → Live e B)
        → Quiet m
        → ((a : A) → Quiet (f a))
        → Quiet (m >>= f)
    Quiet-bind m f km kf = record {
      at = λ s. elim (Result-cases (m s).0) [
        | inl (a, e) ↦
            rw (e, ◌>>=◌) (SameCore-trans s (m s).1 (f a (m s).1).1 (km.at s) ((kf a).at (m s).1))
        | inr (x, e) ↦ rw (e, ◌>>=◌) (km.at s)
      ];
    }

  -- reading a socket's data changes nothing, and fails exactly if the socket is closed
  pub get_user_data-cases :
      (id : ℕ) (s : Server e)
      → ((find_first (is_socket id) s.sockets ≡ none)
          × (get_user_data id s ≡ (err closed_socket, s)))
        ⊎ ((d : PerSocketData) × (find_first (is_socket id) s.sockets ≡ some d)
            × (get_user_data id s ≡ (ok d, s)))
  unfolding get_user_data
  get_user_data-cases id s = elim (Option-cases (find_first (is_socket id) s.sockets)) [
    | inl missing ↦ inl (missing, rw (missing, get_user_data) refl)
    | inr (d, e) ↦ inr (d, e, rw (e, get_user_data) refl)
  ]

  pub get_user_data_same : (id : ℕ) (s : Server e) → (get_user_data id s).1 ≡ s
  get_user_data_same id s = elim (get_user_data-cases id s) [
    | inl (_, h) ↦ rw h refl
    | inr (_, _, h) ↦ rw h refl
  ]

  pub get_user_data-Quiet : (id : ℕ) → Quiet (get_user_data id)
  get_user_data-Quiet id = record {
    at = λ s. rw (get_user_data_same id s) (refl, refl, refl, refl, refl);
  }

  sent-Quiet :
      (entry : ℕ × Message)
      → Quiet {A = Unit} (modify (λ (s : Server e). record s { sent = add_row s.sent entry }))
  sent-Quiet entry = record { at = λ s. (refl, refl, refl, refl, refl) }

  counted-Quiet :
      (reason : String)
      → Quiet {A = Unit} (modify (λ (s : Server e). record s { errors = add_row s.errors reason }))
  counted-Quiet reason = record { at = λ s. (refl, refl, refl, refl, refl) }

  pub moves_total-Quiet :
      Quiet {A = Unit} (modify (λ (s : Server e). record s { moves_total = suc s.moves_total }))
  moves_total-Quiet = record { at = λ s. (refl, refl, refl, refl, refl) }

  pub send-Quiet : (id : ℕ) (m : Message) → Quiet (send id m)
  unfolding send
  send-Quiet id m = search (Quiet-bind, get_user_data-Quiet, sent-Quiet)

  pub send_if-Quiet : (ws : Option ℕ) (m : Message) → Quiet (send_if ws m)
  send_if-Quiet none m = Quiet-pure tt
  send_if-Quiet (some id) m = send-Quiet id m

  pub broadcast_to_room-Quiet :
      (room : MatchRoom e) (m : Message) → Quiet (broadcast_to_room room m)
  unfolding broadcast_to_room
  broadcast_to_room-Quiet room m = search (Quiet-bind, send_if-Quiet)

  pub enqueue_grpc_job-Quiet : (job : Job) → Quiet {A = Unit} (enqueue_grpc_job job)
  unfolding enqueue_grpc_job
  enqueue_grpc_job-Quiet job = record { at = λ s. (refl, refl, refl, refl, refl) }

  pub reply_error-Quiet : (id : ℕ) (reason text : String) → Quiet (reply_error id reason text)
  unfolding reply_error
  reply_error-Quiet id reason text = search (Quiet-bind, counted-Quiet, send-Quiet)

  pub value-Quiet : (json : e.Json) (key : String) → Quiet (value e json key)
  value-Quiet json key = Quiet-or_raise (e.value json key) _

  user_of-Quiet : (ws : Option ℕ) → Quiet (user_of ws)
  user_of-Quiet none = Quiet-pure ""
  user_of-Quiet (some id) = search (Quiet-bind, Quiet-pure, get_user_data-Quiet)

  pub winner_of-Quiet :
      (room : MatchRoom e) (result : GameResult) (white : Bool)
      → Quiet (winner_of room result white)
  winner_of-Quiet room result_lose white = search (Quiet-if, user_of-Quiet)
  winner_of-Quiet room other white = Quiet-pure ""

pub ruleset quiet_rules = (
  Quiet-bind, Quiet-pure, Quiet-or_raise, Quiet-if, get_user_data-Quiet, send-Quiet,
  broadcast_to_room-Quiet, enqueue_grpc_job-Quiet, reply_error-Quiet, value-Quiet, winner_of-Quiet,
  moves_total-Quiet,
)
