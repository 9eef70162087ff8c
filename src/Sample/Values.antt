-- ===== src/Sample/Values.antt =====
-- A platform on which every hypothesis of the development can be met, and a world on it.
use Prim.Native.String as S
use Prim.Native.Char.{code}
use secure_chess.Prelude.{
  ℕ, zero, suc, refl, String, true, false, not, Option, none, some, [], str_eq, ◌==◌, if◌then◌else◌,
}
use secure_chess.Platform.{Platform, World, QueueEntry}
use secure_chess.Platform.Tables.{Database}
use secure_chess.Jwt.Laws.{JwtLaws}
use secure_chess.Sample.Tokens.{sign, check, check-sign}
use secure_chess.Sample.Store.{keys_api}

-- a UUID as a row of marks
unfoldable pub marks : ℕ → String
marks zero = ""
marks (suc n) = S.◌∷◌ "u" (marks n)

unfoldable pub marks_in : String → Option ℕ
marks_in S.[] = some 0
marks_in (S.◌∷◌ c s) =
    let more = marks_in s in
    if code c == b'u' then elim more [ none ↦ none | some n ↦ some (suc n) ] else none

-- a queue entry as the text of its user's id
abbrev pub read_entry : String → Option QueueEntry
read_entry s =
    some (record { request_id = ""; user_id = s; time_control = ""; increment = 0; created_at = 0 })

abbrev pub sample : Platform
sample = record {
  jwt_secret = "secret";
  jwt_algo = "HS256";
  jwt_mins = 1;
  jwt_days = 1;
  ws_base_url = "ws://localhost:9001";
  is_redis_address = λ address. not (str_eq address "localhost");
  redis_url = some "redis://localhost";
  encode = sign;
  decode = check;
  hash = λ password salt. some (S.◌∷◌ "#" password);
  verify = λ password hashed. some (str_eq hashed (S.◌∷◌ "#" password));
  sha256 = λ s. S.◌∷◌ "$" s;
  str_uuid = marks;
  uuid_of = marks_in;
  random_uuid = λ n. n;
  random_token = marks;
  dumps = λ e. e.user_id;
  loads = read_entry;
  db_fault = λ n. false;
  redis = keys_api;
}

pub sample_laws : JwtLaws sample
unfolding sign
sample_laws = record {
  secret_set = refl;
  algo_set = refl;
  encodes = λ c. (_, refl);
  decode-encode = λ c token now. check-sign c token "secret" "HS256" now;
}

abbrev pub no_rows : Database
no_rows = record { users = []; refresh_tokens = []; matches = []; games = []; audit_logs = [] }

abbrev pub start : World sample
start = record {
  clock = 0;
  db = no_rows;
  redis = record { up = true; entries = [] };
  has_client = true;
  draws = 0;
  connections = 0;
}
