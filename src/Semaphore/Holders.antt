-- ===== src/Semaphore/Holders.antt =====
-- semaphore.go: the counters on the server against the calls that hold a slot, over every order of
-- acquiring, releasing and passing time.
use gatew_ai.Base.{
  ℕ, suc, ◌≤◌, ◌≡◌, sym, ◌∙◌, Bool, true, false, not, ◌&&◌, ◌||◌, some, String, ltb, arith,
  if◌then◌else◌, ap,
}
use gatew_ai.Base.Int.{pos}
use gatew_ai.Redis.{Redis}
use gatew_ai.Semaphore.Scripts.{
  keys-ne, Outlives, acquire_script_lem, release_script_lem, count-elapse,
}
use gatew_ai.Semaphore.{
  ModelSemaphore, shared_key, reserved_key, reserved_max, Acquired, count_of, acquire_script,
  release_script, try_acquire, release,
}

module _ (redis : Redis) (sem : ModelSemaphore) (name : String) where
  open redis use {Store, ttl, elapse}

  -- The store, and how many calls hold a slot of each kind.
  pub record World : Type 0 where
    pub store : redis.Store
    pub shared : ℕ
    pub reserved : ℕ

  abbrev after_acquire : World → Acquired × Store → World
  after_acquire w (a, s) = record {
    store = s;
    shared = if a.granted && not a.used_reserved then suc w.shared else w.shared;
    reserved = if a.granted && a.used_reserved then suc w.reserved else w.reserved;
  }

  -- A call acquires, a holder releases what it acquired, or time passes.
  pub data Step : World → World → Type 0 where
    acquires :
        (w : World) (priority : Bool)
        → Step w (after_acquire w (try_acquire redis sem true name priority w.store))
    releases_shared :
        (w : World) (n : ℕ)
        → w.shared ≡ suc n
        → Step w (record {
          store = release redis sem true name false w.store;
          shared = n;
          reserved = w.reserved;
        })
    releases_reserved :
        (w : World) (n : ℕ)
        → w.reserved ≡ suc n
        → Step w (record {
          store = release redis sem true name true w.store;
          shared = w.shared;
          reserved = n;
        })
    waits :
        (w : World) (n : ℕ)
        → Outlives (ttl w.store (shared_key sem name)) n
        → Outlives (ttl w.store (reserved_key sem name)) n
        → Step w (record w { store = elapse n w.store })

  pub data Reach (w : World) : World → Type 0 where
    here : Reach w w
    next : {v u : World} → Reach w v → Step v u → Reach w u

  -- The name has `m` shared and `k` reserved slots.
  pub record Applies (m k : ℕ) : Type 0 where
    pub limit : sem.limits name ≡ some (pos m)
    pub reservation : reserved_max sem name ≡ pos k

  -- The counters are the numbers of holders, and these are within the limits.
  pub record IsCounted (m k : ℕ) (w : World) : Type 0 where
    pub shared_count : count_of redis w.store (shared_key sem name) ≡ pos w.shared
    pub reserved_count : count_of redis w.store (reserved_key sem name) ≡ pos w.reserved
    pub shared_within : w.shared ≤ m
    pub reserved_within : w.reserved ≤ k

  module _ (m k : ℕ) (a : Applies m k) where
    acquire_is :
        (w : World) (priority : Bool)
        → try_acquire redis sem true name priority w.store
          ≡ acquire_script redis
              (reserved_key sem name)
              (shared_key sem name)
              (pos k)
              (pos m)
              priority
              w.store
    unfolding try_acquire
    acquire_is w priority = ground (arith, a.limit, a.reservation)

    acquire-IsCounted :
        (w : World) (priority : Bool)
        → IsCounted m k w
        → IsCounted m k (after_acquire w (try_acquire redis sem true name priority w.store))
    acquire-IsCounted w priority c =
        let (granted, used, shared, reserved) =
          acquire_script_lem redis (reserved_key sem name) (shared_key sem name) k m w.reserved
            w.shared priority w.store (keys-ne sem name) c.reserved_count c.shared_count in
        rw (acquire_is w priority)
          (ground (arith, granted, used, shared, reserved, c.shared_within, c.reserved_within))

    release_shared-IsCounted :
        (w : World) (n : ℕ)
        → w.shared ≡ suc n
        → IsCounted m k w
        → IsCounted m k (record {
          store = release redis sem true name false w.store;
          shared = n;
          reserved = w.reserved;
        })
    unfolding release
    release_shared-IsCounted w n e c =
        let (less, others) =
          release_script_lem redis (shared_key sem name) n w.store (c.shared_count ∙ ap pos e) in
        ground (
          arith,
          a.limit,
          less,
          others (reserved_key sem name) (keys-ne sem name),
          c.reserved_count,
          c.shared_within,
          c.reserved_within,
        )

    release_reserved-IsCounted :
        (w : World) (n : ℕ)
        → w.reserved ≡ suc n
        → IsCounted m k w
        → IsCounted m k (record {
          store = release redis sem true name true w.store;
          shared = w.shared;
          reserved = n;
        })
    unfolding release
    release_reserved-IsCounted w n e c =
        let (less, others) =
          release_script_lem redis (reserved_key sem name) n w.store
            (c.reserved_count ∙ ap pos e) in
        ground (
          arith,
          a.limit,
          less,
          others (shared_key sem name) (λ e. keys-ne sem name (sym e)),
          c.shared_count,
          c.shared_within,
          c.reserved_within,
        )

    Step-IsCounted : {w v : World} → Step w v → IsCounted m k w → IsCounted m k v
    Step-IsCounted (acquires w priority) c = acquire-IsCounted w priority c
    Step-IsCounted (releases_shared w n e) c = release_shared-IsCounted w n e c
    Step-IsCounted (releases_reserved w n e) c = release_reserved-IsCounted w n e c
    Step-IsCounted (waits w n o p) c = record {
      shared_count = count-elapse redis (shared_key sem name) n w.store o ∙ c.shared_count;
      reserved_count = count-elapse redis (reserved_key sem name) n w.store p ∙ c.reserved_count;
      shared_within = c.shared_within;
      reserved_within = c.reserved_within;
    }

    -- While every script reaches the server, each holder releases once, and no wait outlives the time to live
    -- of a counter: whatever calls acquire and release, in any order and on any replica, the counters are
    -- the numbers of holders and no more calls hold a slot of a kind than there are such slots.
    pub Reach-IsCounted : {w v : World} → IsCounted m k w → Reach w v → IsCounted m k v
    Reach-IsCounted c here = c
    Reach-IsCounted c (next r st) = Step-IsCounted st (Reach-IsCounted c r)

    -- In every state that acquires and releases reach, a call gets a reserved slot exactly if it has priority and one is free,
    -- and is granted exactly if it gets that or a shared slot is free.
    pub granted-try_acquire :
        {w v : World} (priority : Bool)
        → IsCounted m k w
        → Reach w v
        → let answer = (try_acquire redis sem true name priority v.store).0 in
          (answer.granted ≡ (priority && ltb v.reserved k || ltb v.shared m))
          × (answer.used_reserved ≡ (priority && ltb v.reserved k))
    granted-try_acquire {v = v} priority c r =
        let d = Reach-IsCounted c r in
        let (granted, used, _, _) =
          acquire_script_lem redis (reserved_key sem name) (shared_key sem name) k m v.reserved
            v.shared priority v.store (keys-ne sem name) d.reserved_count d.shared_count in
        rw (acquire_is v priority) (granted, used)

    -- A call that was granted because its script failed holds no counted slot, but its release is
    -- counted: with all shared slots held by others, the next call is granted one more.
    pub release-unmetered :
        (w : World) (n : ℕ)
        → IsCounted m k w
        → w.shared ≡ m
        → m ≡ suc n
        → let (lucky, s) = try_acquire redis sem false name false w.store in
          let next_call =
            try_acquire redis sem true name false
              (release redis sem true name lucky.used_reserved s) in
          (lucky.granted ≡ true) × (next_call.0.granted ≡ true)
    unfolding release try_acquire
    release-unmetered w n c full e =
        let (less, others) =
          release_script_lem redis (shared_key sem name) n w.store
            (c.shared_count ∙ ap pos (full ∙ e)) in
        let freed = release_script redis (shared_key sem name) w.store in
        let reserved = others (reserved_key sem name) (keys-ne sem name) ∙ c.reserved_count in
        let (granted, _, _, _) =
          acquire_script_lem redis (reserved_key sem name) (shared_key sem name) k m w.reserved n
            false freed (keys-ne sem name) reserved less in
        ground (arith, a.limit, a.reservation, granted)
