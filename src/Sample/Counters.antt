-- ===== src/Sample/Counters.antt =====
-- The Redis server of the samples meets what the rate limiter relies on.
use secure_chess.Prelude.{
  ℕ, ◌-◌, ◌≤◌, ◌≡◌, refl, String, Option, none, some, List, [], ◌∷◌, leb, str_eq, eq_iff, eq_refl,
  if◌then◌else◌, arith, Option-cases, inl, inr,
}
use secure_chess.Platform.Redis.{no_key, no_expiry, seconds}
use secure_chess.RateLimit.Laws.{CounterLaws, expiring}
use secure_chess.Sample.Store.{
  Keys, Entry, keys_api, find, without, expire_key, is_there, as_count, as_ttl,
}

pub find-without :
    (k j : String) (l : List (String × Entry))
    → find j (without k l) ≡ (if str_eq k j then none else find j l)
unfolding find without
find-without k j [] = ground arith
find-without k j ((i, e) ∷ l) =
    ground (arith, find-without k j l, eq_iff k i, eq_iff j i, eq_iff k j)

-- one entry, some seconds later: `none` where its time is over
abbrev pub aged : ℕ → Entry → Option Entry
aged d (v, none) = some (v, none)
aged d (v, some n) = if leb n d then none else some (v, some (n - d))

abbrev pub aged_option : ℕ → Option Entry → Option Entry
aged_option d none = none
aged_option d (some e) = aged d e

abbrev or_without : String → Option Entry → List (String × Entry) → List (String × Entry)
or_without k none l = without k l
or_without k (some e) l = (k, e) ∷ l

pub age : ℕ → List (String × Entry) → List (String × Entry)
age d [] = []
age d ((k, e) ∷ l) = or_without k (aged d e) (age d l)

find-or_without :
    (k j : String) (o : Option Entry) (l : List (String × Entry))
    → find j (or_without k o l) ≡ (if str_eq j k then o else find j l)
unfolding find
find-or_without k j none l = ground (arith, find-without k j l, eq_iff k j, eq_iff j k)
find-or_without k j (some e) l = refl

pub find-age :
    (d : ℕ) (k : String) (l : List (String × Entry)) → find k (age d l) ≡ aged_option d (find k l)
unfolding find age
find-age d k [] = refl
find-age d k ((j, e) ∷ l) = rw find-or_without (ground (arith, find-age d k l))

find_self : (k : String) (e : Entry) (l : List (String × Entry)) → find k ((k, e) ∷ l) ≡ some e
unfolding find
find_self k e l = rw (eq_refl, find)

pub find_put :
    (k j : String) (e : Entry) (l : List (String × Entry))
    → find j ((k, e) ∷ without k l) ≡ (if str_eq k j then some e else find j l)
unfolding find
find_put k j e l = ground (arith, find-without k j l, eq_iff k j, eq_iff j k)

pub stays :
    (d : ℕ) (o : Option Entry)
    → as_ttl o ≡ no_expiry
    → (as_ttl (aged_option d o) ≡ no_expiry) × (as_count (aged_option d o) ≡ as_count o)
stays d none h = ground arith
stays d (some (v, none)) h = (refl, refl)
stays d (some (v, some n)) h = ground arith

pub gone :
    (d n : ℕ) (o : Option Entry)
    → as_ttl o ≡ seconds n
    → n ≤ d
    → (as_ttl (aged_option d o) ≡ no_key) × (as_count (aged_option d o) ≡ 0)
gone d n none h le = ground arith
gone d n (some (v, none)) h le = ground arith
gone d n (some (v, some m)) h le = ground arith

pub expired-count :
    (k : String) (n : ℕ) (s : Keys) (j : String)
    → as_count (find j (expire_key n k s (find k s.entries)).entries) ≡ as_count (find j s.entries)
expired-count k n s j = elim (Option-cases (find k s.entries)) [
  | inl e ↦ rw (e, expire_key)
  | inr ((v, t), e) ↦ rw (e, expire_key, find_put) (ground (arith, eq_iff k j))
]

pub expired-ttl :
    (k : String) (n : ℕ) (s : Keys)
    → as_ttl (find k (expire_key n k s (find k s.entries)).entries)
      ≡ expiring n (as_ttl (find k s.entries))
expired-ttl k n s = elim (Option-cases (find k s.entries)) [
  | inl e ↦ rw (e, expire_key) (rw e)
  | inr ((v, t), e) ↦ rw (e, expire_key, find_put, eq_refl) (ground arith)
]

unfoldable pub counter_laws : CounterLaws keys_api
counter_laws = record {
  up = λ s. s.up;
  count = λ s k. as_count (find k s.entries);
  remaining = λ s k. as_ttl (find k s.entries);
  lapse = λ d s. record s { entries = age d s.entries };
  incr-reply = λ k s u. rw u;
  incr-up = λ k s u. rw u;
  incr-count = λ k s j u. rw (u, find_put) (ground arith);
  incr-remaining = λ k s u. rw (u, find_put, eq_refl) (ground arith);
  expire-reply = λ k n s u. (is_there (find k s.entries), rw u);
  expire-up = λ k n s u. rw u (ground arith);
  expire-count = λ k n s j u h. simp u (expired-count k n s j);
  expire-remaining = λ k n s u h. simp u (expired-ttl k n s);
  ttl-reply = λ k s u. rw u;
  ttl_same = λ k s u. rw u;
  lapse-up = λ d s. refl;
  lapse_stays = λ d s k h. rw find-age (stays d (find k s.entries) h);
  lapse_gone = λ d n s k h le. rw find-age (gone d n (find k s.entries) h le);
}
