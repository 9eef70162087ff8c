-- ===== src/Matchmaking/Fifo.antt =====
-- `create_request` of services/api/matchmaking/routes.py as an operation on a queue of players.
use secure_chess.Prelude.{
  suc, ◌≡◌, refl, sym, ◌∙◌, All, ap, String, true, some, List, [], ◌∷◌, map, add_row, length, ◌⊎◌,
  inl, inr, arith,
}
use secure_chess.Exec.{ok}
use secure_chess.Platform.{Platform, World, QueueEntry}
use secure_chess.Platform.ListLaws.{ListLaws}
use secure_chess.Platform.Calls.{uuid4, utc_now}
use secure_chess.Platform.CallLaws.{redis_call-some}
use secure_chess.RedisClient.Client.{get_redis_client-connected}
use secure_chess.UserHelpers.{Request, get_user_id}
use secure_chess.Matchmaking.{
  MatchmakingRequestBody, queued, queue_key_of, enqueue, after_pop, pair, create_request,
}

map-add_row :
    {A B : Type 0} (f : A → B) (l : List A) (x : A) → add_row (map f l) (f x) ≡ map f (add_row l x)
unfolding add_row
map-add_row f [] x = refl
map-add_row f (y ∷ l) x = ap (λ r. f y ∷ r) (map-add_row f l x)

-- the front two of a queue with one more
front_two :
    {A : Type 0} (a : A) (l : List A) (x : A)
    → (b : A) × (more : List A) × (add_row (a ∷ l) x ≡ a ∷ b ∷ more)
unfolding add_row
front_two a [] x = (x, [], refl)
front_two a (b ∷ l) x = (b, add_row l x, refl)

-- `json.loads` gives back what `json.dumps` was given
abbrev pub IsReadable : Platform → QueueEntry → Type 0
IsReadable p x = p.loads (p.dumps x) ≡ some x

All-same :
    {A : Type 0} (P : A → Type 0) (rows others : List A) → rows ≡ others → All P rows → All P others
All-same P rows others e h = rw (sym e) h

module _ {p : Platform} (l : ListLaws p.redis) where
  -- the players of the queue at the key, in their order
  abbrev pub IsQueue : String → List QueueEntry → World p → Type 0
  IsQueue key players w = l.items w.redis key ≡ map p.dumps players

  abbrev pub entry_of : MatchmakingRequestBody → String → World p → QueueEntry
  entry_of body user_id w = record {
    request_id = p.str_uuid (p.random_uuid w.draws);
    user_id = user_id;
    time_control = body.time_control;
    increment = body.increment;
    created_at = w.clock;
  }

  module _ (body : MatchmakingRequestBody) (request : Request) (user_id : String) (w : World p)
      (connected : w.has_client ≡ true) (up : l.up w.redis ≡ true)
      (known : get_user_id request w ≡ (ok user_id, w)) where
    -- the world once the player is in the queue
    abbrev pushed : World p
    pushed = record w {
      draws = suc w.draws;
      redis = (p.redis.rpush (queue_key_of body) (p.dumps (entry_of body user_id w)) w.redis).1;
    }

    pushed-up : l.up pushed.redis ≡ true
    pushed-up = l.rpush-up (queue_key_of body) (p.dumps (entry_of body user_id w)) w.redis up

    enqueue-pushed :
        enqueue (queue_key_of body) (entry_of body user_id w) (record w { draws = suc w.draws })
        ≡ (ok (length (l.items pushed.redis (queue_key_of body))), pushed)
    unfolding enqueue
    enqueue-pushed =
        let key = queue_key_of body in
        let raw = p.dumps (entry_of body user_id w) in
        let (n, reply) = l.rpush-reply key raw w.redis up in
        let a =
          redis_call-some p (p.redis.rpush key raw) (record w { draws = suc w.draws }) reply in
        let b =
          redis_call-some p (p.redis.llen key) pushed (l.llen-reply key pushed.redis pushed-up) in
        let c = l.llen-same key pushed.redis pushed-up in ground arith

    pushed-IsQueue :
        (players : List QueueEntry)
        → IsQueue (queue_key_of body) players w
        → IsQueue (queue_key_of body) (add_row players (entry_of body user_id w)) pushed
    pushed-IsQueue players q =
        l.rpush-items (queue_key_of body) (p.dumps (entry_of body user_id w)) w.redis up
        ∙ ap (λ items. add_row items (p.dumps (entry_of body user_id w))) q
        ∙ map-add_row p.dumps players (entry_of body user_id w)

    waits :
        length (l.items pushed.redis (queue_key_of body)) ≡ 1
        → create_request body request w
          ≡ (ok (queued (p.str_uuid (p.random_uuid w.draws)) 1 (queue_key_of body)), pushed)
    unfolding create_request uuid4 utc_now
    waits one =
        let a = get_redis_client-connected w connected in let b = enqueue-pushed in ground arith

    -- the world once the front two have left
    abbrev popped : World p
    popped = record pushed { redis = (p.redis.lpop (queue_key_of body) 2 pushed.redis).1 }

    pairs :
        (a b : QueueEntry) (more : List String)
        → l.items pushed.redis (queue_key_of body) ≡ p.dumps a ∷ p.dumps b ∷ more
        → p.loads (p.dumps a) ≡ some a
        → p.loads (p.dumps b) ≡ some b
        → create_request body request w ≡ pair body user_id a b popped
    unfolding create_request uuid4 utc_now after_pop
    pairs a b more items read_a read_b =
        let key = queue_key_of body in
        let c = get_redis_client-connected w connected in
        let d = enqueue-pushed in
        let f =
          redis_call-some p (p.redis.lpop key 2) pushed
            (l.lpop-reply key (p.dumps a) (p.dumps b) more pushed.redis pushed-up items) in
        ground arith

  -- The queue is first come, first served. A request of a known player, while Redis is up and the
  -- entries can be read back, puts the player's entry at the end of the queue of its time control.
  -- If the queue was empty, the player waits there alone, at position 1; otherwise the two that
  -- came first leave the queue, in their order, the others stay in theirs, and the request goes on
  -- with the match of these two.
  pub create_request-IsQueue :
      (body : MatchmakingRequestBody) (request : Request) (user_id : String)
      (players : List QueueEntry) (w : World p)
      → w.has_client ≡ true
      → l.up w.redis ≡ true
      → get_user_id request w ≡ (ok user_id, w)
      → IsQueue (queue_key_of body) players w
      → All (IsReadable p) (add_row players (entry_of body user_id w))
      → let mine = entry_of body user_id w in
        let key = queue_key_of body in
        ((players ≡ [])
          × (v : World p) × (create_request body request w ≡ (ok (queued mine.request_id 1 key), v))
          × IsQueue key (mine ∷ []) v
          × (v.db ≡ w.db))
        ⊎ ((first second : QueueEntry) × (others : List QueueEntry) × (v : World p) × (add_row
                players mine
              ≡ first ∷ second ∷ others)
            × (create_request body request w ≡ pair body user_id first second v)
            × IsQueue key others v
            × (v.db ≡ w.db))
  unfolding add_row
  create_request-IsQueue body request user_id [] w connected up known q reads =
      let pushed_queue = pushed-IsQueue body request user_id w connected up known [] q in
      inl (
        refl,
        pushed body request user_id w connected up known,
        waits body request user_id w connected up known (ap length pushed_queue),
        pushed_queue,
        refl,
      )
  create_request-IsQueue body request user_id (a ∷ players) w connected up known q reads =
      let mine = entry_of body user_id w in
      let key = queue_key_of body in
      let v = pushed body request user_id w connected up known in
      let (b, more, two) = front_two a players mine in
      let readable : All (IsReadable p) (a ∷ b ∷ more) = All-same (IsReadable p) _ _ two reads in
      let items =
        pushed-IsQueue body request user_id w connected up known (a ∷ players) q
        ∙ ap (map p.dumps) two in
      inr (
        a,
        b,
        more,
        popped body request user_id w connected up known,
        two,
        pairs body request user_id w connected up known a b (map p.dumps more) items readable.0
            readable.1.0,
        l.lpop-items key (p.dumps a) (p.dumps b) (map p.dumps more) v.redis
            (l.rpush-up key (p.dumps mine) w.redis up) items,
        refl,
      )
