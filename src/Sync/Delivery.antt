-- ===== src/Sync/Delivery.antt =====
-- handler/sync.go: when a call is answered, and by a backend.
use mathlib.Core.Bool.{Bool-set}
use mathlib.Core.Logic.Or
use mathlib.Core.List.{Mem, mem-cons, not-mem-nil}
use mathlib.Core.List.Perm
use gatew_ai.Base.{
  ℕ, zero, suc, ◌+◌, ◌<◌, ◌≡◌, ◌≢◌, ◌⊎◌, ◌↔◌, refl, subst, ◌∙◌, Bool, true, false, Option, none,
  some, String, List, [], ◌∷◌, arith, eq_iff, Option-cases, inl, inr,
}
use gatew_ai.Base.Int.{ℤ, pos, ◌+ℤ◌, ◌≤ℤ◌, ◌<ℤ◌}
use gatew_ai.Server.{present}
use gatew_ai.Redis.{Redis}
use gatew_ai.RateLimit.{Limiter}
use gatew_ai.Backends.{Backend, positives, total_weight, ordered_backends}
use gatew_ai.Backends.Ordering.{ordered_backends-Perm}
use gatew_ai.Semaphore.{SlotCalls, ModelSemaphore}
use gatew_ai.Proxy.{Response, pooled-no_pool}
use gatew_ai.Sync.{
  Service, Inference, Outcome, forwarded, unanswered, Progress, unsent, progress_of, done, gone_on,
  received, opens, tried, cycle, attempts, max_attempts, proxy_to_inference,
}

module _ (redis : Redis) (parse_duration : String → Option ℤ) (limiter : Option Limiter)
    (up : String → Bool) (def : Service) (net : Inference) (reusable : Bool) where
  open redis use {Store}

  attempts-unanswered :
      (left n : ℕ) (w : Progress Store)
      → (attempts redis parse_duration limiter up def net reusable (suc left) n w).0 ≢ unanswered
  unfolding attempts
  attempts-unanswered zero n w h = ground (arith, h)
  attempts-unanswered (suc left) n w h =
      elim (Option-cases (ordered_backends (net.draw n) def.backends)) [
        | inl e ↦ ground (arith, e, h)
        | inr (bs, e) ↦
            let after = (cycle redis parse_duration limiter up def net reusable n bs w).1 in
            ground (arith, e, h, attempts-unanswered left (suc n) after)
      ]

  no_attempts :
      (left n : ℕ) (w : Progress Store)
      → (attempts redis parse_duration limiter up def net reusable left n w).0 ≡ unanswered
      → left ≡ 0
  no_attempts zero n w h = refl
  no_attempts (suc left) n w h = absurd (attempts-unanswered left n w h)

  some_attempts :
      (w : Progress Store)
      → (attempts redis parse_duration limiter up def net reusable
          (max_attempts redis parse_duration limiter up def net reusable)
          0
          w).0
        ≡ unanswered
      → (reusable ≡ true) × (def.retries <ℤ pos 0)
  unfolding max_attempts ◌+ℤ◌
  some_attempts w h =
      ground
        (arith, no_attempts (max_attempts redis parse_duration limiter up def net reusable) 0 w h)

  negative :
      (w : Progress Store)
      → (reusable ≡ true) × (def.retries <ℤ pos 0)
      → (attempts redis parse_duration limiter up def net reusable
          (max_attempts redis parse_duration limiter up def net reusable)
          0
          w).0
        ≡ unanswered
  unfolding max_attempts attempts ◌+ℤ◌
  negative w h = ground (arith, h)

  -- For a service with backends and no pool, a call ends with nothing written to the client exactly if
  -- its body is not streamed and the configured number of retries is negative.
  pub proxy_to_inference-unanswered :
      (sem : Option ModelSemaphore) (reaches : SlotCalls) (priority : Bool) (s : Store)
      → def.pool_name ≡ ""
      → def.backends ≢ []
      → ((proxy_to_inference redis parse_duration limiter up def net reusable sem reaches priority
            s).0
          ≡ unanswered)
        ↔ ((reusable ≡ true) × (def.retries <ℤ pos 0))
  unfolding proxy_to_inference
  proxy_to_inference-unanswered none reaches priority s p b = (
    λ h. ground (arith, h, some_attempts (unsent s)),
    λ h. ground (arith, h, b, negative (unsent s)),
  )
  proxy_to_inference-unanswered (some sem) reaches priority s p b = (
    λ h. ground (arith, h, p, eq_iff def.pool_name "", some_attempts (unsent s)),
    λ h. ground (arith, h, b, p, eq_iff def.pool_name "", negative (unsent s)),
  )

  -- A usable backend answers below 500 at this attempt.
  abbrev pub Answers : ℕ → Backend → Type 0
  Answers n b = (resp : Response) × (net.answer n b ≡ some resp) × (resp.status < 500)

  module _ (p : def.pool_name ≡ "") (whole : reusable ≡ true)
      (parse : (b : Backend) → net.parses b ≡ true)
      (build : (b : Backend) → net.builds b ≡ true) where
    cycle_here :
        (n : ℕ) (b : Backend) (bs : List Backend) (w : Progress Store)
        → Answers n b
        → present (cycle redis parse_duration limiter up def net reusable n (b ∷ bs) w).0 ≡ true
    unfolding cycle tried received opens gone_on
    cycle_here n b bs w (resp, a, l) = ground (
      arith,
      p,
      whole,
      parse b,
      build b,
      a,
      l,
      pooled-no_pool redis parse_duration up limiter def.pool_name b.url w.store p,
    )

    cycle_later :
        (n : ℕ) (c : Backend) (cs : List Backend) (w : Progress Store)
        → present
            (cycle redis parse_duration limiter up def net reusable n cs
              (progress_of (tried redis parse_duration limiter up def net reusable n c w))).0
          ≡ true
        → present (cycle redis parse_duration limiter up def net reusable n (c ∷ cs) w).0 ≡ true
    unfolding cycle tried received opens gone_on
    cycle_later n c cs w h = ground (arith, whole, h)

    cycle_found :
        (n : ℕ) (b : Backend) (bs : List Backend) (w : Progress Store)
        → Mem b bs
        → Answers n b
        → present (cycle redis parse_duration limiter up def net reusable n bs w).0 ≡ true
    cycle_found n b [] w m a = absurd (not-mem-nil m)
    cycle_found n b (c ∷ cs) w m a =
        Or.elim (Bool-set _ _) (mem-cons.0 m)
          (λ e.
            subst
              (λ x.
                present (cycle redis parse_duration limiter up def net reusable n (x ∷ cs) w).0
                ≡ true)
              e (cycle_here n b cs w a))
          (λ k.
            let after =
              progress_of (tried redis parse_duration limiter up def net reusable n c w) in
            cycle_later n c cs w (cycle_found n b cs after k a))

    abbrev IsForwarded : Outcome → Type 0
    IsForwarded out =
        (url : String) × (resp : Response) × (out ≡ forwarded url resp) × (resp.status < 500)

    tried-done :
        (n : ℕ) (b : Backend) (w : Progress Store) (url : String) (resp : Response)
        (after : Progress Store)
        → tried redis parse_duration limiter up def net reusable n b w ≡ done url resp after
        → resp.status < 500
    unfolding tried received gone_on
    tried-done n b w url resp after h = ground (arith, h, net.answer n b)

    cycle-below :
        (n : ℕ) (bs : List Backend) (w : Progress Store) (url : String) (resp : Response)
        → (cycle redis parse_duration limiter up def net reusable n bs w).0 ≡ some (url, resp)
        → resp.status < 500
    unfolding cycle
    cycle-below n [] w url resp h = absurd (ground (arith, h))
    cycle-below n (b ∷ bs) w url resp h =
        let t = tried redis parse_duration limiter up def net reusable n b w in
        ground (
          arith,
          h,
          tried-done n b w url resp (progress_of t),
          cycle-below n bs (progress_of t) url resp,
        )

    attempts-IsForwarded :
        (left n k i : ℕ) (b : Backend) (w : Progress Store)
        → k < left
        → i ≡ n + k
        → ((i : ℕ)
            → (net.draw i < total_weight (positives def.backends)) ⊎ (positives def.backends ≡ []))
        → ((i : ℕ) → net.cancelled i ≡ false)
        → Mem b def.backends
        → Answers i b
        → IsForwarded (attempts redis parse_duration limiter up def net reusable left n w).0
    unfolding attempts
    attempts-IsForwarded zero n k i b w l place draws stays m a = absurd (omega (arith, l))
    attempts-IsForwarded (suc left) n zero i b w l place draws stays m a =
        let (order, e, perm) = ordered_backends-Perm (net.draw n) def.backends (draws n) in
        let now : i ≡ n = omega (arith, place) in
        let answers = subst (λ j. Answers j b) now a in
        let found = cycle_found n b order w ((Perm.mem_iff perm).1 m) answers in
        elim (Option-cases (cycle redis parse_duration limiter up def net reusable n order w).0) [
          | inl q ↦ absurd (ground (arith, q, found))
          | inr ((url, resp), q) ↦
              (url, resp, ground (arith, e, q, stays n), cycle-below n order w url resp q)
        ]
    attempts-IsForwarded (suc left) n (suc k) i b w l place draws stays m a =
        let (order, e, perm) = ordered_backends-Perm (net.draw n) def.backends (draws n) in
        let after = (cycle redis parse_duration limiter up def net reusable n order w).1 in
        elim (Option-cases (cycle redis parse_duration limiter up def net reusable n order w).0) [
          | inl q ↦
              let (url, resp, r, below) =
                attempts-IsForwarded left (suc n) k i b after (omega (arith, l))
                  (omega (arith, place)) draws stays m a in
              (url, resp, ground (arith, e, q, stays n, l, r), below)
          | inr ((url, resp), q) ↦
              (url, resp, ground (arith, e, q, stays n), cycle-below n order w url resp q)
        ]

    unpooled :
        (sem : Option ModelSemaphore) (reaches : SlotCalls) (priority : Bool) (s : Store)
        → def.backends ≢ []
        → (proxy_to_inference redis parse_duration limiter up def net reusable sem reaches priority
            s).0
          ≡ (attempts redis parse_duration limiter up def net reusable
              (max_attempts redis parse_duration limiter up def net reusable)
              0
              (unsent s)).0
    unfolding proxy_to_inference
    unpooled none reaches priority s h = ground (arith, h)
    unpooled (some sem) reaches priority s h = ground (arith, h, p, eq_iff def.pool_name "")

    -- For a service with no pool, whose body is not streamed, whose urls parse, with valid draws for
    -- the order and a client that stays: if one of its backends answers below 500 at one of the
    -- 1 + retries attempts, the call is answered by a backend, below 500.
    pub proxy_to_inference-Answers :
        (sem : Option ModelSemaphore) (reaches : SlotCalls) (priority : Bool) (s : Store) (k : ℕ)
        (b : Backend)
        → pos k ≤ℤ def.retries
        → ((i : ℕ)
            → (net.draw i < total_weight (positives def.backends)) ⊎ (positives def.backends ≡ []))
        → ((i : ℕ) → net.cancelled i ≡ false)
        → Mem b def.backends
        → Answers k b
        → (url : String) × (resp : Response) × ((proxy_to_inference redis parse_duration limiter up
              def net reusable sem reaches priority s).0
            ≡ forwarded url resp)
          × (resp.status < 500)
    unfolding proxy_to_inference max_attempts ◌+ℤ◌
    proxy_to_inference-Answers sem reaches priority s k b l draws stays m a =
        let enough : k < max_attempts redis parse_duration limiter up def net reusable =
          ground (arith, whole, l) in
        let (url, resp, r, below) =
          attempts-IsForwarded (max_attempts redis parse_duration limiter up def net reusable) 0 k k
            b (unsent s) enough (omega arith) draws stays m a in
        (
          url,
          resp,
          unpooled sem reaches priority s (λ e. not-mem-nil (subst (Mem b) e m)) ∙ r,
          below,
        )
