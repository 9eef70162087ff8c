-- ===== src/Sample/Store.antt =====
-- A Redis server whose keys hold a text, a counter or a list, with the seconds they have left.
-- While it is down every command fails and changes nothing.
use secure_chess.Prelude.{
  ℕ, zero, suc, String, Bool, true, false, Option, none, some, List, [], ◌∷◌, str_eq, if◌then◌else◌,
}
use secure_chess.Platform.Redis.{RedisApi, Ttl, no_key, no_expiry, seconds}

pub data Value : Type 0 where
  text : String → Value
  counter : ℕ → Value
  list : List String → Value

abbrev pub Entry : Type 0
Entry = Value × Option ℕ

pub record Keys : Type 0 where
  pub up : Bool
  pub entries : List (String × Entry)

unfoldable pub find : String → List (String × Entry) → Option Entry
find k [] = none
find k ((j, e) ∷ l) = if str_eq k j then some e else find k l

unfoldable pub without : String → List (String × Entry) → List (String × Entry)
without k [] = []
without k ((j, e) ∷ l) = let rest = without k l in if str_eq k j then rest else (j, e) ∷ rest

abbrev put : String → Entry → Keys → Keys
put k e s = record s { entries = (k, e) ∷ without k s.entries }

abbrev drop : String → Keys → Keys
drop k s = record s { entries = without k s.entries }

abbrev when_up : {A : Type 0} → Keys → A → Keys → Option A × Keys
when_up s a s' = if s.up then (some a, s') else (none, s)

abbrev pub as_count : Option Entry → ℕ
as_count (some (counter n, _)) = n
as_count _ = 0

abbrev pub as_text : Option Entry → Option String
as_text (some (text t, _)) = some t
as_text _ = none

abbrev pub as_list : Option Entry → List String
as_list (some (list l, _)) = l
as_list _ = []

abbrev pub deadline : Option Entry → Option ℕ
deadline (some (_, d)) = d
deadline none = none

abbrev pub as_ttl : Option Entry → Ttl
as_ttl none = no_key
as_ttl (some (_, none)) = no_expiry
as_ttl (some (_, some n)) = seconds n

abbrev pub is_there : Option Entry → Bool
is_there none = false
is_there (some e) = true

abbrev pub expire_key : ℕ → String → Keys → Option Entry → Keys
expire_key n k s none = s
expire_key n k s (some (v, _)) = put k (v, some n) s

abbrev pub count_of : List String → ℕ
count_of [] = 0
count_of (x ∷ l) = suc (count_of l)

abbrev pub snoc : List String → String → List String
snoc [] x = x ∷ []
snoc (y ∷ l) x = y ∷ snoc l x

abbrev pub put_list : String → List String → Keys → Keys
put_list k [] s = drop k s
put_list k (x ∷ l) s = put k (list (x ∷ l), none) s

abbrev first : ℕ → List String → List String
first zero l = []
first (suc n) [] = []
first (suc n) (x ∷ l) = x ∷ first n l

abbrev pub rest : ℕ → List String → List String
rest zero l = l
rest (suc n) [] = []
rest (suc n) (x ∷ l) = rest n l

abbrev some_list : List String → Option (List String)
some_list [] = none
some_list (x ∷ l) = some (x ∷ l)

abbrev pub keys_api : RedisApi
keys_api = record {
  Store = Keys;
  aclose = λ s. when_up s tt s;
  ping = λ s. when_up s tt s;
  incr = λ k s.
      let e = find k s.entries in
      let n : ℕ = suc (as_count e) in when_up s n (put k (counter n, deadline e) s);
  expire = λ k n s. let e = find k s.entries in when_up s (is_there e) (expire_key n k s e);
  ttl = λ k s. when_up s (as_ttl (find k s.entries)) s;
  rpush = λ k v s.
      let l : List String = snoc (as_list (find k s.entries)) v in
      when_up s (count_of l) (put_list k l s);
  lpush = λ k v s.
      let l : List String = v ∷ as_list (find k s.entries) in
      when_up s (count_of l) (put_list k l s);
  llen = λ k s. when_up s (count_of (as_list (find k s.entries))) s;
  lpop = λ k n s.
      let l : List String = as_list (find k s.entries) in
      when_up s (some_list (first n l)) (put_list k (rest n l) s);
  set = λ k v n s. when_up s tt (put k (text v, some n) s);
  get = λ k s. when_up s (as_text (find k s.entries)) s;
  delete = λ k s. when_up s 1 (drop k s);
  getdel = λ k s. when_up s (as_text (find k s.entries)) (drop k s);
}
