-- ===== src/Tests/Board.antt =====
-- Ann (socket 1, white) and Bob (socket 2, black) before the mating move of the sample opening.
use secure_chess.Prelude.{ℕ, String, some, none, [], ◌∷◌}
use secure_chess.Platform.{World}
use secure_chess.Platform.Tables.{User}
use secure_chess.GameServer.{Server, PerSocketData, MatchRoom}
use secure_chess.Sample.Values.{sample, start, no_rows}
use secure_chess.Sample.Chess.{opening}

abbrev pub socket : ℕ → String → String → PerSocketData
socket id user color = record {
  socket_id = id;
  user_id = user;
  game_id = "";
  color = color;
  msg_count = 0;
  window_start_ms = 0;
}

abbrev pub ann_socket : PerSocketData
ann_socket = socket 1 "u" "white"

abbrev pub bob_socket : PerSocketData
bob_socket = socket 2 "uu" "black"

abbrev pub room : MatchRoom opening
room = record {
  match_id = "";
  white = some 1;
  black = some 2;
  board = 3;
  move_history = "f2f3" ∷ "e7e5" ∷ "g2g4" ∷ [];
}

abbrev pub game : Server opening
game = record {
  rooms = room ∷ [];
  sockets = ann_socket ∷ bob_socket ∷ [];
  next_socket_id = 3;
  jobs = [];
  deferred = [];
  sent = [];
  connected_sockets = record { ups = 2; downs = 0 };
  active_games = record { ups = 1; downs = 0 };
  moves_total = 3;
  errors = [];
}

abbrev user : ℕ → String → User
user id name = record {
  user_id = id;
  username = name;
  email = name;
  password_hash = "#";
  created_at = 0;
}

-- the database with their match
abbrev pub control : World sample
control = record start {
  db = record no_rows {
    users = user 1 "ann" ∷ user 2 "bob" ∷ [];
    matches =
        record {
          match_id = 0;
          white_user_id = 1;
          black_user_id = 2;
          time_control = "blitz";
          increment = 2;
          status = "pending";
          created_at = 0;
        }
        ∷ [];
  };
}

-- Bob has lost his connection, and is back on socket 3.
abbrev pub paused : Server opening
paused = record game {
  rooms = record room { black = none } ∷ [];
  sockets = ann_socket ∷ record (socket 3 "" "") { game_id = "none" } ∷ [];
  next_socket_id = 4;
}
