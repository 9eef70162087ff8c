-- ===== src/Sample/Chess.antt =====
-- A chess library for a single opening: a board is the number of the moves made, and black mates
-- with the fourth. A message is the text of a move.
use secure_chess.Prelude.{
  ℕ, zero, suc, ◌==◌, String, Bool, true, not, none, some, [], ◌∷◌, str_eq, is_empty, if◌then◌else◌,
}
use secure_chess.GameServer.{Engine, checkmate, other_reason, result_none, result_lose}

abbrev next_move : ℕ → String
next_move zero = "f2f3"
next_move (suc zero) = "e7e5"
next_move (suc (suc zero)) = "g2g4"
next_move _ = "d8h4"

abbrev is_even : ℕ → Bool
is_even zero = true
is_even (suc n) = not (is_even n)

abbrev pub opening : Engine
opening = record {
  Board = ℕ;
  Move = String;
  start = 0;
  get_fen = λ b. if is_even b then "w" else "b";
  white_to_move = is_even;
  uci_to_move = λ b s. s;
  legal_moves = λ b. next_move b ∷ [];
  same_move = str_eq;
  make_move = λ b m. suc b;
  is_game_over = λ b. if b == 4 then (checkmate, result_lose) else (other_reason, result_none);
  Json = String;
  parse = λ s. if is_empty s then none else some s;
  value = λ json key.
      if str_eq json "[]" then none else some (if str_eq key "type" then "move" else json);
  size = λ s. if str_eq s "huge" then 2000 else 4;
}
