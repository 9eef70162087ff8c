-- ===== src/RateLimit/Window.antt =====
-- What a client of a route that is limited by address sees over many requests.
use Prim.Native.Nat.{min}
use secure_chess.Prelude.{
  ℕ, zero, suc, ◌+◌, ◌-◌, ◌*◌, ◌≤◌, ◌≡◌, refl, ◌∙◌, String, true, false, Option, some, List, [],
  ◌∷◌, ltb, ◌==◌, eq_refl, Bool-cases, inl, inr, if◌then◌else◌, arith,
}
use secure_chess.Exec.{ok, is_ok}
use secure_chess.Platform.{Platform, World}
use secure_chess.Platform.Redis.{no_expiry}
use secure_chess.Platform.Calls.{Act}
use secure_chess.UserHelpers.{Request}
use secure_chess.RateLimit.{find_identifier, get_client_ip, rate_limit, rate_key}
use secure_chess.RateLimit.Laws.{CounterLaws, counted, counted-count, counted-up, counted-remaining}
use secure_chess.RateLimit.Wrapper.{rate_limit-up}

-- how many of n calls in a row end well
unfoldable pub admitted : {p : Platform} {A : Type 0} → ℕ → Act p A → World p → ℕ
admitted zero call w = 0
admitted (suc n) call w =
    let (r, v) = call w in let more = admitted n call v in if is_ok r then suc more else more

module _ (p : Platform) (l : CounterLaws p.redis) (key : String) where
  -- the limiter can count
  pub record Ready (w : World p) : Type 0 where
    pub connected : w.has_client ≡ true
    pub up : l.up w.redis ≡ true

  -- a handler that ends well, and leaves the limiter and the count of the key alone
  pub record LeavesCount {A : Type 0} (func : Request → Act p A) : Type 0 where
    pub ends_well : (request : Request) (w : World p) → is_ok (func request w).0 ≡ true
    pub ready : (request : Request) (w : World p) → Ready w → Ready (func request w).1
    pub same_count :
        (request : Request) (w : World p)
        → Ready w
        → l.count (func request w).1.redis key ≡ l.count w.redis key

module _ {p : Platform} {A : Type 0} (l : CounterLaws p.redis) (max window : ℕ)
    (key_prefix : String) (request : Request) (body : Option String) (func : Request → Act p A)
    (positive : 1 ≤ window) where
  abbrev call : Act p A
  call = rate_limit max window "ip" key_prefix (some request) body func

  abbrev key : String
  key = rate_key key_prefix (get_client_ip request)

  found : (w : World p) → find_identifier "ip" request body w ≡ (ok (get_client_ip request), w)
  unfolding find_identifier
  found w = refl

  -- the world after the check
  abbrev checked : World p → World p
  checked w = record w {
    redis = counted p.redis key window (suc (l.count w.redis key) == 1) w.redis;
  }

  checked-Ready : (w : World p) → Ready p l key w → Ready p l key (checked w)
  checked-Ready w h = record {
    connected = h.connected;
    up = counted-up l key window (suc (l.count w.redis key) == 1) w.redis h.up;
  }

  -- One request: the count grows by one, and the call ends well exactly if it stays in the limit.
  step :
      (w : World p)
      → Ready p l key w
      → LeavesCount p l key func
      → let (r, v) = call w in
        Ready p l key v
        × (l.count v.redis key ≡ suc (l.count w.redis key))
        × (is_ok r ≡ ltb (l.count w.redis key) max)
  step w h leaves =
      let first = suc (l.count w.redis key) == 1 in
      let e =
        rate_limit-up max window "ip" key_prefix (get_client_ip request) request body func w
          (found w) h.connected l h.up positive in
      let c = counted-count l key window first w.redis key h.up positive in
      let same = leaves.same_count request (checked w) (checked-Ready w h) in
      let well = leaves.ends_well request (checked w) in
      let rdy = leaves.ready request (checked w) (checked-Ready w h) in
      elim (Bool-cases (ltb max (suc (l.count w.redis key)))) [
        | inl over ↦ let rdy' = checked-Ready w h in ground (arith, eq_refl key)
        | inr within ↦ ground (arith, eq_refl key)
      ]

  quota_from :
      (n : ℕ) (w : World p)
      → Ready p l key w
      → LeavesCount p l key func
      → admitted n call w ≡ min n (max - l.count w.redis key)
  unfolding admitted
  quota_from zero w h leaves = omega arith
  quota_from (suc n) w h leaves =
      let (r, v) = call w in
      let (h', counted, well) = step w h leaves in
      let rest = quota_from n v h' leaves in ground arith

  -- Of n requests in a row from one address to a limited route, with Redis up and no time passing,
  -- as many end well as `max_requests` leaves beyond those already counted, if there are so many,
  -- if the handler always ends well and leaves the limiter's count alone.
  pub rate_limit_quota :
      (n : ℕ) (w : World p)
      → w.has_client ≡ true
      → l.up w.redis ≡ true
      → LeavesCount p l key func
      → admitted n call w ≡ min n (max - l.count w.redis key)
  rate_limit_quota n w connected up leaves =
      quota_from n w (record { connected = connected; up = up }) leaves

  -- a key that has used up the limit and has no expiration
  pub record Stuck (w : World p) : Type 0 where
    pub ready : Ready p l key w
    pub used_up : max ≤ l.count w.redis key
    pub no_end : l.remaining w.redis key ≡ no_expiry

  -- some seconds later
  abbrev pub wait : ℕ → World p → World p
  wait d w = record w { clock = w.clock + d * 1000000; redis = l.lapse d w.redis }

  wait-Stuck : (d : ℕ) (w : World p) → Stuck w → Stuck (wait d w)
  wait-Stuck d w h =
      let (stays, same) = l.lapse_stays d w.redis key h.no_end in
      record {
        ready = record { connected = h.ready.connected; up = l.lapse-up d w.redis ∙ h.ready.up };
        used_up = rw same h.used_up;
        no_end = stays;
      }

  call-Stuck : (w : World p) → 1 ≤ max → Stuck w → Stuck (call w).1 × (is_ok (call w).0 ≡ false)
  call-Stuck w some_room h =
      let first = suc (l.count w.redis key) == 1 in
      let e =
        rate_limit-up max window "ip" key_prefix (get_client_ip request) request body func w
          (found w) h.ready.connected l h.ready.up positive in
      let c = counted-count l key window first w.redis key h.ready.up positive in
      let t = counted-remaining l key window first w.redis h.ready.up positive in
      let r = checked-Ready w h.ready in
      let over : ltb max (suc (l.count w.redis key)) ≡ true = ground arith in
      let later : first ≡ false = ground arith in
      let v : call w ≡ (_, checked w) = rw over at e in
      rw v (
        (
          record {
            ready = r;
            used_up = rw (c, eq_refl) (omega (arith, h.used_up));
            no_end = rw (t, h.no_end, later) refl;
          },
          refl,
        ))

  -- how many calls end well, with these waits before them
  unfoldable pub admitted_after : List ℕ → World p → ℕ
  admitted_after [] w = 0
  admitted_after (d ∷ waits) w =
      let (r, v) = call (wait d w) in
      let more = admitted_after waits v in if is_ok r then suc more else more

  refused_from : (waits : List ℕ) (w : World p) → 1 ≤ max → Stuck w → admitted_after waits w ≡ 0
  unfolding admitted_after
  refused_from [] w some_room h = refl
  refused_from (d ∷ waits) w some_room h =
      let (h', refused) = call-Stuck (wait d w) some_room (wait-Stuck d w h) in
      let rest = refused_from waits (call (wait d w)).1 some_room h' in rw refused rest

  -- If the key of an address has used up the limit and has no expiration (EXPIRE is called only on
  -- a count of 1, and is not repeated where it failed), then no request from that address ends
  -- well again, however long it waits between requests, while Redis is up.
  pub rate_limit_lockout :
      (waits : List ℕ) (w : World p)
      → 1 ≤ max
      → w.has_client ≡ true
      → l.up w.redis ≡ true
      → max ≤ l.count w.redis key
      → l.remaining w.redis key ≡ no_expiry
      → admitted_after waits w ≡ 0
  rate_limit_lockout waits w some_room connected up used_up no_end =
      refused_from waits w some_room (record {
        ready = record { connected = connected; up = up };
        used_up = used_up;
        no_end = no_end;
      })
