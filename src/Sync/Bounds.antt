-- ===== src/Sync/Bounds.antt =====
-- handler/sync.go: how many requests a call makes, and that it is answered.
use gatew_ai.Base.{
  ℕ, zero, suc, ◌+◌, ◌*◌, ◌≤◌, ◌≡◌, Bool, false, Option, none, some, String, List, [], ◌∷◌, length,
  if◌then◌else◌, arith, Option-cases, Bool-cases, inl, inr,
}
use gatew_ai.Base.Int.{ℤ, pos, ◌+ℤ◌, pos_part}
use gatew_ai.Redis.{Redis}
use gatew_ai.RateLimit.{Limiter}
use gatew_ai.Backends.{Backend, ordered_backends}
use gatew_ai.Backends.Sizes.{ordered_backends-length}
use gatew_ai.Semaphore.{SlotCalls, ModelSemaphore, try_acquire}
use gatew_ai.Proxy.{Response}
use gatew_ai.Sync.{
  Service, Inference, Outcome, Progress, unsent, progress_of, gone_on, received, opens, tried,
  cycle, attempts, max_attempts, proxy_to_inference, slotted,
}

module _ (redis : Redis) (parse_duration : String → Option ℤ) (limiter : Option Limiter)
    (up : String → Bool) (def : Service) (net : Inference) (reusable : Bool) where
  open redis use {Store}

  received-progress :
      (b : Backend) (w : Progress Store) (a : Option Response)
      → progress_of (received redis parse_duration limiter up def net reusable b w a) ≡ w
  unfolding received gone_on
  received-progress b w none = ground arith
  received-progress b w (some resp) = ground arith

  tried-sent :
      (n : ℕ) (b : Backend) (w : Progress Store)
      → length (progress_of (tried redis parse_duration limiter up def net reusable n b w)).sent
        ≤ suc (length w.sent)
  unfolding tried
  tried-sent n b w = ground (arith, received-progress b)

  cycle-sent :
      (n : ℕ) (bs : List Backend) (w : Progress Store)
      → length (cycle redis parse_duration limiter up def net reusable n bs w).1.sent
        ≤ length bs + length w.sent
  unfolding cycle
  cycle-sent n [] w = omega arith
  cycle-sent n (b ∷ bs) w =
      let t = tried redis parse_duration limiter up def net reusable n b w in
      ground (arith, tried-sent n b w, cycle-sent n bs (progress_of t))

  attempts-sent :
      (left n : ℕ) (w : Progress Store)
      → length (attempts redis parse_duration limiter up def net reusable left n w).1.sent
        ≤ left * length def.backends + length w.sent
  unfolding attempts
  attempts-sent zero n w = omega arith
  attempts-sent (suc left) n w = elim (Option-cases (ordered_backends (net.draw n) def.backends)) [
    | inl e ↦ ground (arith, e)
    | inr (bs, e) ↦
        let after = (cycle redis parse_duration limiter up def net reusable n bs w).1 in
        ground (
          arith,
          e,
          ordered_backends-length (net.draw n) def.backends bs e,
          cycle-sent n bs w,
          attempts-sent left (suc n) after,
        )
  ]

  -- A streamed body is sent at most once, and not sent unless it was opened.
  abbrev IsOnce : Progress Store → Type 0
  IsOnce w = length w.sent ≤ (if w.used then 1 else 0)

  tried-IsOnce :
      (n : ℕ) (b : Backend) (w : Progress Store)
      → reusable ≡ false
      → IsOnce w
      → IsOnce (progress_of (tried redis parse_duration limiter up def net reusable n b w))
  unfolding tried opens
  tried-IsOnce n b w h k = ground (arith, received-progress b)

  cycle-IsOnce :
      (n : ℕ) (bs : List Backend) (w : Progress Store)
      → reusable ≡ false
      → IsOnce w
      → IsOnce (cycle redis parse_duration limiter up def net reusable n bs w).1
  unfolding cycle
  cycle-IsOnce n [] w h k = k
  cycle-IsOnce n (b ∷ bs) w h k =
      let t = tried redis parse_duration limiter up def net reusable n b w in
      ground (arith, tried-IsOnce n b w h k, cycle-IsOnce n bs (progress_of t) h)

  attempts-IsOnce :
      (left n : ℕ) (w : Progress Store)
      → reusable ≡ false
      → IsOnce w
      → IsOnce (attempts redis parse_duration limiter up def net reusable left n w).1
  unfolding attempts
  attempts-IsOnce zero n w h k = k
  attempts-IsOnce (suc left) n w h k =
      elim (Option-cases (ordered_backends (net.draw n) def.backends)) [
        | inl e ↦ ground (arith, e, k)
        | inr (bs, e) ↦
            let after = (cycle redis parse_duration limiter up def net reusable n bs w).1 in
            ground (arith, e, k, cycle-IsOnce n bs w h k, attempts-IsOnce left (suc n) after h)
      ]

  abbrev pub most_requests : ℕ
  most_requests = if reusable then pos_part (pos 1 +ℤ def.retries) * length def.backends else 1

  -- The loop in full, from a request that nothing was sent of.
  all_attempts : Store → Outcome × Progress Store
  all_attempts s =
      attempts redis parse_duration limiter up def net reusable
        (max_attempts redis parse_duration limiter up def net reusable) 0 (unsent s)

  all_attempts-sent : (s : Store) → length (all_attempts s).1.sent ≤ most_requests
  unfolding all_attempts max_attempts
  all_attempts-sent s =
      let w = unsent s in
      elim (Bool-cases reusable) [
        | inl e ↦ ground (arith, e, attempts-sent (pos_part (pos 1 +ℤ def.retries)) 0 w)
        | inr e ↦ ground (arith, e, attempts-IsOnce 1 0 w e (omega arith))
      ]

  -- A request makes at most (1 + retries) times as many calls as the service has backends, and at
  -- most one if its body is streamed, whatever the backends, the pool's limits and the semaphore answer.
  pub proxy_to_inference-sent :
      (sem : Option ModelSemaphore) (reaches : SlotCalls) (priority : Bool) (s : Store)
      → length
          (proxy_to_inference redis parse_duration limiter up def net reusable sem reaches priority
            s).1.sent
        ≤ most_requests
  unfolding proxy_to_inference all_attempts slotted
  proxy_to_inference-sent none reaches priority s = ground (arith, all_attempts-sent s)
  proxy_to_inference-sent (some sem) reaches priority s =
      let (slot, after) = try_acquire redis sem reaches.acquires def.pool_name priority s in
      ground (arith, all_attempts-sent s, all_attempts-sent after)
