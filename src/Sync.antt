-- ===== src/Sync.antt =====
-- internal/handler/sync.go: how proxyToInference sends a synchronous request to the backends of a service,
-- with the slots of its pool (Semaphore), the limits of the pool (RateLimit), the order of the backends
-- (Backends) and the cycles that are repeated. What the network answers, what is drawn for the order, and
-- whether the client has gone are arguments, by the number of the attempt. Metrics, usage counters, the
-- token check before and the accounting after an answer are left out.
pub mod Bounds
pub mod Delivery
pub mod Slots
pub mod Examples
use gatew_ai.Base.{
  ℕ, zero, suc, Bool, true, false, not, ◌&&◌, ◌||◌, Option, none, some, String, str_eq, leb, ◌==◌,
  List, [], ◌∷◌, if◌then◌else◌,
}
use gatew_ai.Base.Int.{ℤ, pos, ◌+ℤ◌, pos_part}
use gatew_ai.Redis.{Redis}
use gatew_ai.RateLimit.{Limiter}
use gatew_ai.Backends.{Backend, ordered_backends}
use gatew_ai.Semaphore.{SlotCalls, ModelSemaphore, Acquired, try_acquire, release}
use gatew_ai.Proxy.{Response, pooled}

-- What is read of a service's definition.
pub record Service : Type 0 where
  pub pool_name : String
  pub retries : ℤ
  pub backends : List Backend

-- What the environment does: whether a backend's url parses and a request can be built for it, the answers
-- (none: a network error), the numbers drawn for the order, and whether the client went before an attempt.
pub record Inference : Type 0 where
  pub parses : Backend → Bool
  pub builds : Backend → Bool
  pub answer : ℕ → Backend → Option Response
  pub draw : ℕ → ℕ
  pub cancelled : ℕ → Bool

pub data Outcome : Type 0 where
  forwarded : (url : String) → Response → Outcome  -- success or 4xx
  no_backends : Outcome  -- 500
  too_busy : Outcome  -- 503
  all_failed : Outcome  -- 502
  gave_up : Outcome  -- 502: cancelled during a retry
  unanswered : Outcome  -- nothing was written
  panicked : Outcome  -- in the order of the backends

pub record Progress (Store : Type 0) : Type 0 where
  pub store : Store
  pub used : Bool  -- the body was opened
  pub sent : List String  -- the urls of the requests, the last first

abbrev pub unsent : {Store : Type 0} → Store → Progress Store
unsent s = record { store = s; used = false; sent = [] }

-- How the loop over the backends goes on after one of them.
pub data Tried (Store : Type 0) : Type 0 where
  done : (url : String) → Response → Progress Store → Tried Store
  stop : Progress Store → Tried Store
  again : Progress Store → Tried Store

abbrev pub progress_of : {Store : Type 0} → Tried Store → Progress Store
progress_of (done url resp w) = w
progress_of (stop w) = w
progress_of (again w) = w

module _ (redis : Redis) (parse_duration : String → Option ℤ) (limiter : Option Limiter)
    (up : String → Bool) (def : Service) (net : Inference) (reusable : Bool) where
  open redis use {Store}

  -- A body that is streamed is sent once.
  unfoldable pub gone_on : Progress Store → Tried Store
  gone_on w = if reusable then again w else stop w

  unfoldable pub received : Backend → Progress Store → Option Response → Tried Store
  unfolding gone_on
  received b w none = gone_on w
  received b w (some resp) = if leb 500 resp.status then gone_on w else done b.url resp w

  unfoldable pub opens : Progress Store → Bool
  opens w = reusable || not w.used

  unfoldable pub tried : ℕ → Backend → Progress Store → Tried Store
  unfolding received opens
  tried attempt b w =
      let (allowed, after) = pooled redis parse_duration up limiter def.pool_name b.url w.store in
      let checked = record w { store = after } in
      let opened = record checked { used = true } in
      if not allowed
      then again checked
      else if not (net.parses b)
      then again checked
      else if not (opens w)
      then stop checked
      else if not (net.builds b)
      then again opened
      else received b (record opened { sent = b.url ∷ w.sent }) (net.answer attempt b)

  unfoldable pub cycle :
      ℕ → List Backend → Progress Store → Option (String × Response) × Progress Store
  cycle attempt [] w = (none, w)
  cycle attempt (b ∷ bs) w = elim (tried attempt b w) [
    | done url resp after ↦ (some (url, resp), after)
    | stop after ↦ (none, after)
    | again after ↦ cycle attempt bs after
  ]

  -- The loop over `left` more attempts, from the number `attempt`.
  unfoldable pub attempts : ℕ → ℕ → Progress Store → Outcome × Progress Store
  attempts zero attempt w = (unanswered, w)
  attempts (suc left) attempt w =
      if not (attempt == 0) && net.cancelled attempt
      then (gave_up, w)
      else elim (ordered_backends (net.draw attempt) def.backends) [
        | none ↦ (panicked, w)
        | some bs ↦
            let (found, after) = cycle attempt bs w in
            let later = attempts left (suc attempt) after in
            elim found [
              | some (url, resp) ↦ (forwarded url resp, after)
              | none ↦ if left == 0 then (all_failed, after) else later
            ]
      ]

  unfoldable pub max_attempts : ℕ
  max_attempts = if reusable then pos_part (pos 1 +ℤ def.retries) else 1

  -- The loop with the slot of the pool, which is given back on every way out of it.
  slotted : ModelSemaphore → SlotCalls → Acquired × Store → Outcome × Progress Store
  slotted sem reaches (slot, s) =
      let (out, w) = attempts max_attempts 0 (unsent s) in
      if not slot.granted then (too_busy, unsent s) else (
        out,
        record w {
          store = release redis sem reaches.releases def.pool_name slot.used_reserved w.store;
        },
      )

  -- `reaches` says which of the semaphore's scripts reach the server.
  unfoldable pub proxy_to_inference :
      Option ModelSemaphore → SlotCalls → Bool → Store → Outcome × Progress Store
  unfolding slotted
  proxy_to_inference none reaches priority s = elim def.backends [
    | [] ↦ (no_backends, unsent s)
    | b ∷ bs ↦ attempts max_attempts 0 (unsent s)
  ]
  proxy_to_inference (some sem) reaches priority s = elim def.backends [
    | [] ↦ (no_backends, unsent s)
    | b ∷ bs ↦
        if not (str_eq def.pool_name "")
        then slotted sem reaches (try_acquire redis sem reaches.acquires def.pool_name priority s)
        else attempts max_attempts 0 (unsent s)
  ]
