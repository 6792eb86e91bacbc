-- ===== src/Sync/Slots.antt =====
-- handler/sync.go: a call gives back the slot of the pool that it took.
use gatew_ai.Base.{
  ℕ, zero, suc, ◌≡◌, ◌≢◌, ◌↔◌, refl, ◌∙◌, Bool, true, false, Option, none, some, String, append,
  prefix-ne, eq_iff, List, [], ◌∷◌, if◌then◌else◌, arith, Option-cases, Bool-cases, inl, inr, ltb,
  ◌&&◌, ◌||◌,
}
use gatew_ai.Base.Int.{ℤ}
use gatew_ai.Redis.{Redis}
use gatew_ai.RateLimit.{Limiter}
use gatew_ai.RateLimit.Window.Pools.{get-check_backend_pool_ne}
use gatew_ai.Backends.{Backend, ordered_backends}
use gatew_ai.Semaphore.{
  both_reach, ModelSemaphore, Acquired, try_acquire, count_of, shared_key, reserved_key,
}
use gatew_ai.Semaphore.Calls.{IsHeld, try_acquire_lem, release_lem, refused-IsHeld, granted-IsHeld}
use gatew_ai.Proxy.{pooled}
use gatew_ai.Sync.{
  Service, Inference, too_busy, Progress, unsent, progress_of, gone_on, received, opens, tried,
  cycle, attempts, max_attempts, proxy_to_inference, slotted,
}

module _ (redis : Redis) (parse_duration : String → Option ℤ) (limiter : Option Limiter)
    (up : String → Bool) (def : Service) (net : Inference) (reusable : Bool) where
  open redis use {Store, get_int}

  module _ (j : String) (h : (x : String) → append "poolrl:" x ≢ j) where
    pooled-keeps :
        (l : Option Limiter) (pool url : String) (s : Store)
        → get_int (pooled redis parse_duration up l pool url s).1 j ≡ get_int s j
    unfolding pooled
    pooled-keeps none pool url s = refl
    pooled-keeps (some l) pool url s = ground (
      arith,
      get-check_backend_pool_ne redis parse_duration up l pool url s j (h pool)
          (h (append pool (append ":" url))),
    )

    tried-keeps :
        (n : ℕ) (b : Backend) (w : Progress Store)
        → get_int
            (progress_of (tried redis parse_duration limiter up def net reusable n b w)).store
            j
          ≡ get_int w.store j
    unfolding tried opens received gone_on
    tried-keeps n b w =
        ground (arith, pooled-keeps limiter def.pool_name b.url w.store, net.answer n b)

    cycle-keeps :
        (n : ℕ) (bs : List Backend) (w : Progress Store)
        → get_int (cycle redis parse_duration limiter up def net reusable n bs w).1.store j
          ≡ get_int w.store j
    unfolding cycle
    cycle-keeps n [] w = refl
    cycle-keeps n (b ∷ bs) w =
        let t = tried redis parse_duration limiter up def net reusable n b w in
        ground (arith, tried-keeps n b w, cycle-keeps n bs (progress_of t))

    attempts-keeps :
        (left n : ℕ) (w : Progress Store)
        → get_int (attempts redis parse_duration limiter up def net reusable left n w).1.store j
          ≡ get_int w.store j
    unfolding attempts
    attempts-keeps zero n w = refl
    attempts-keeps (suc left) n w =
        elim (Option-cases (ordered_backends (net.draw n) def.backends)) [
          | inl e ↦ ground (arith, e)
          | inr (bs, e) ↦
              let after = (cycle redis parse_duration limiter up def net reusable n bs w).1 in
              ground (arith, e, cycle-keeps n bs w, attempts-keeps left (suc n) after)
        ]

  module _ (sem : ModelSemaphore) where
    shared-ne : (x : String) → append "poolrl:" x ≢ shared_key sem def.pool_name
    unfolding shared_key
    shared-ne x =
        prefix-ne "poolrl:" "gateway" ":semaphore:" x _ refl
          (ground (arith, eq_iff "poolrl:" "gateway"))

    reserved-ne : (x : String) → append "poolrl:" x ≢ reserved_key sem def.pool_name
    unfolding reserved_key
    reserved-ne x =
        prefix-ne "poolrl:" "gateway" ":semaphore:" x _ refl
          (ground (arith, eq_iff "poolrl:" "gateway"))

    count-attempts :
        (key : String) (n : ℕ) (w : Progress Store)
        → ((x : String) → append "poolrl:" x ≢ key)
        → count_of redis
            (attempts redis parse_duration limiter up def net reusable n 0 w).1.store
            key
          ≡ count_of redis w.store key
    unfolding count_of
    count-attempts key n w h = ground (arith, attempts-keeps key h n 0 w)

    attempts-IsHeld :
        (m k cs cr n : ℕ) (w : Progress Store)
        → IsHeld redis sem def.pool_name m k cs cr w.store
        → IsHeld redis sem def.pool_name m k cs cr
            (attempts redis parse_duration limiter up def net reusable n 0 w).1.store
    attempts-IsHeld m k cs cr n w h = record {
      limit = h.limit;
      reservation = h.reservation;
      shared_count = count-attempts (shared_key sem def.pool_name) n w shared-ne ∙ h.shared_count;
      reserved_count =
          count-attempts (reserved_key sem def.pool_name) n w reserved-ne ∙ h.reserved_count;
    }

    busy-ne :
        (left n : ℕ) (w : Progress Store)
        → (attempts redis parse_duration limiter up def net reusable left n w).0 ≢ too_busy
    unfolding attempts
    busy-ne zero n w h = ground (arith, h)
    busy-ne (suc left) n w h = elim (Option-cases (ordered_backends (net.draw n) def.backends)) [
      | inl e ↦ ground (arith, e, h)
      | inr (bs, e) ↦
          let after = (cycle redis parse_duration limiter up def net reusable n bs w).1 in
          ground (arith, e, h, busy-ne left (suc n) after)
    ]

    slotted_call :
        (priority : Bool) (s : Store)
        → def.pool_name ≢ ""
        → def.backends ≢ []
        → proxy_to_inference redis parse_duration limiter up def net reusable
            (some sem)
            both_reach
            priority
            s
          ≡ slotted redis parse_duration limiter up def net reusable sem both_reach
              (try_acquire redis sem true def.pool_name priority s)
    unfolding proxy_to_inference
    slotted_call priority s p b = ground (arith, p, b, eq_iff def.pool_name "")

    slotted_lem :
        (m k cs cr : ℕ) (used free : Bool) (slot : Acquired) (s : Store)
        → slot.granted ≡ (used || free)
        → slot.used_reserved ≡ used
        → IsHeld redis sem def.pool_name m k
            (if used then cs else if free then suc cs else cs)
            (if used then suc cr else cr)
            s
        → let (out, w) =
            slotted redis parse_duration limiter up def net reusable sem both_reach (slot, s) in
          ((out ≡ too_busy) ↔ ((used || free) ≡ false))
          × IsHeld redis sem def.pool_name m k cs cr w.store
    unfolding slotted
    slotted_lem m k cs cr used free slot s g u h =
        let n = max_attempts redis parse_duration limiter up def net reusable in
        elim (Bool-cases (used || free)) [
          | inl e ↦
              let back = release_lem redis sem def.pool_name m k cs cr used _ (
                attempts-IsHeld m k _ _ n (unsent s)
                  (granted-IsHeld redis sem def.pool_name m k cs cr used free s e h)) in
              (
                rw (g, e) (λ q. absurd (busy-ne n 0 (unsent s) q), λ q. absurd (ground (arith, q))),
                rw (g, e, u) back,
              )
          | inr e ↦ (
            rw (g, e) (λ q. refl, λ q. refl),
            rw (g, e) (refused-IsHeld redis sem def.pool_name m k cs cr used free s e h),
          )
        ]

    -- Where the acquire and the release script of the pool's semaphore both reach the server: with `cs` of the
    -- `m` shared and `cr` of the `k` reserved slots of the pool held by others, a call of a service with a
    -- pool and backends is refused as too busy exactly if it finds no slot, and on every way out (an answer,
    -- failed backends, a client that went, a panic) as many slots are held as before it.
    pub proxy_to_inference-IsHeld :
        (m k cs cr : ℕ) (priority : Bool) (s : Store)
        → def.pool_name ≢ ""
        → def.backends ≢ []
        → IsHeld redis sem def.pool_name m k cs cr s
        → let (out, w) =
            proxy_to_inference redis parse_duration limiter up def net reusable
              (some sem)
              both_reach
              priority
              s in
          ((out ≡ too_busy) ↔ ((priority && ltb cr k || ltb cs m) ≡ false))
          × IsHeld redis sem def.pool_name m k cs cr w.store
    proxy_to_inference-IsHeld m k cs cr priority s p b h =
        let answer = try_acquire redis sem true def.pool_name priority s in
        let (granted, used, held) =
          try_acquire_lem redis sem def.pool_name m k cs cr priority s h in
        rw (slotted_call priority s p b) (
          slotted_lem m k cs cr (priority && ltb cr k) (ltb cs m) answer.0 answer.1 granted used
            held)
