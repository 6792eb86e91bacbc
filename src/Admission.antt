-- ===== src/Admission.antt =====
-- internal/handler/sync.go: what a synchronous request passes before it is sent on, in handleJSON and
-- (Multipart) handleMultipart: its route (Registry), the fallback model (Breaker), visibility and policy
-- (Authz), the rate limit and the time budget (RateLimit), and the slot of its model (Semaphore). What
-- serves a JSON request is an argument, as are the body that was read and which calls of Redis answer.
-- The path and the method are those of a synchronous route; headers of the answer, metrics and logs
-- are left out.
pub mod Serving
pub mod Alike
pub mod Multipart
pub mod Slots
pub mod Inspection
pub mod Examples
use gatew_ai.Base.{
  ℕ, Bool, true, false, not, ◌&&◌, ◌||◌, Option, none, some, String, str_eq, List, [], ◌∷◌,
  if◌then◌else◌,
}
use gatew_ai.Base.Int.{ℤ}
use gatew_ai.Redis.{Redis}
use gatew_ai.RateLimit.{Limiter, Request, Reply, RateLimitConfig}
use gatew_ai.RateLimit.Requests.{check}
use gatew_ai.RateLimit.Tokens.{check_processing_time}
use gatew_ai.Authz.{Principal, Engine, Decision, evaluate}
use gatew_ai.Semaphore.{SlotCalls, ModelSemaphore, Acquired, try_acquire, release}
use gatew_ai.Backends.{Backend}
use gatew_ai.Breaker.{CircuitBreaker, is_open}
use gatew_ai.Registry.Configs.{Def, is_restricted, visible_to}
use gatew_ai.Registry.Indices.{Registry}
use gatew_ai.Registry.Routes.{RouteError, Routed, routed, refused, route_sync}

-- none: not configured.
pub record SyncHandler : Type 0 where
  pub registry : Registry
  pub authz : Option Engine
  pub rate_limiter : Option Limiter
  pub processing_limiter : Option Limiter
  pub semaphore : Option ModelSemaphore
  pub breaker : Option CircuitBreaker
  pub priority_header : String
  pub user_type_header : String

pub record HttpRequest : Type 0 where
  pub path : String
  pub model : String  -- of the JSON body, or of the form
  pub header : String → String
  pub principal : Option Principal
  pub parses : Bool  -- whether the JSON body, or the form, can be read
  pub small : Bool  -- an upload whose length is known and within streamThresholdBytes
  pub readable : Bool  -- whether the rest of a multipart body can be read

pub data Answer (A : Type 0) : Type 0 where
  unrouted : RouteError → Answer A  -- 400
  hidden : Answer A  -- 404
  forbidden : Answer A  -- 403
  rate_limited : (retry_after : ℤ) → Answer A  -- 429
  out_of_budget : (retry_after : ℤ) → Answer A  -- 429
  unreadable : Answer A  -- 400, 500
  busy : Answer A  -- 503
  served : Def → A → Answer A

abbrev pub is_llm : Def → Bool
is_llm d = not (str_eq d.provider "")

unfoldable pub all_open : CircuitBreaker → ℕ → List Backend → Bool
all_open cb now [] = true
all_open cb now (b ∷ bs) = is_open cb b.url now && all_open cb now bs

unfoldable pub backends_degraded : Option CircuitBreaker → ℕ → List Backend → Bool
unfolding all_open
backends_degraded none now bs = false
backends_degraded (some cb) now [] = false
backends_degraded (some cb) now (b ∷ bs) = all_open cb now (b ∷ bs)

-- A header wins over the user type of the token.
unfoldable pub caller_audience : String → HttpRequest → String × List String
caller_audience user_type_header r =
    let named = if not (str_eq user_type_header "") then r.header user_type_header else "" in
    elim r.principal [
      | none ↦ (named, [])
      | some p ↦ ((if str_eq named "" then p.user_type else named), p.groups)
    ]

unfoldable pub model_visible : SyncHandler → HttpRequest → Def → Bool
unfolding caller_audience
model_visible h r d =
    let (user_type, groups) = caller_audience h.user_type_header r in
    not (is_restricted d) || visible_to d user_type groups

-- The routed model, or its fallback.
unfoldable pub fallen_back : SyncHandler → ℕ → String → Def → Def
unfolding backends_degraded
fallen_back h now path d =
    if not (str_eq d.fallback_model "") && backends_degraded h.breaker now d.backends
    then elim (route_sync h.registry path d.fallback_model) [
      | routed fallback ↦ if is_llm fallback then fallback else d
      | refused e ↦ d
    ]
    else d

-- Whether the request may go on, and the limits of the rule that granted it.
unfoldable pub check_access :
    (String → String → Option Bool) → Option Engine → HttpRequest → Def → Decision
check_access glob none r d = record { allowed = true; limits = none }
check_access glob (some engine) r d = evaluate glob engine r.principal d.service_type d.model

-- A header that is set grants the reserved slots.
unfoldable pub is_priority : SyncHandler → HttpRequest → Bool
is_priority h r = not (str_eq h.priority_header "") && not (str_eq (r.header h.priority_header) "")

module _ (redis : Redis) (parse_duration : String → Option ℤ) (glob : String → String → Option Bool)
    (up : String → Bool) (works : SlotCalls) (h : SyncHandler) {A : Type 0}
    (serve : Def → redis.Store → A × redis.Store) where
  open redis use {Store}

  -- The request as the limiters see it.
  abbrev limited : HttpRequest → Decision → Request
  limited r decision = record { header = r.header; policy = decision.limits }

  -- An error of the check lets the request through.
  unfoldable pub rate_checked :
      Option Limiter → Request → Def → Store → (Store → Answer A × Store) → Answer A × Store
  rate_checked none r d s next = next s
  rate_checked (some l) r d s next =
      let (reply, after) = check redis parse_duration l up r d.service_type s in
      elim reply.error [
        | some e ↦ next after
        | none ↦
            if not reply.result.allowed
            then (rate_limited reply.result.reset_after, after)
            else next after
      ]

  unfoldable pub time_checked :
      Option Limiter → Request → Def → Store → (Store → Answer A × Store) → Answer A × Store
  time_checked none r d s next = next s
  time_checked (some l) r d s next =
      let reply = check_processing_time redis parse_duration l up r d.service_type s in
      elim reply.error [
        | some e ↦ next s
        | none ↦
            if not reply.result.allowed then (out_of_budget reply.result.reset_after, s) else next s
      ]

  -- The slot is released when the request is served.
  unfoldable pub slot_taken : Option ModelSemaphore → Bool → Def → Store → Answer A × Store
  slot_taken none priority d s = let (a, after) = serve d s in (served d a, after)
  slot_taken (some sem) priority d s =
      let (slot, taken) = try_acquire redis sem works.acquires d.model priority s in
      let (a, after) = serve d taken in
      if not slot.granted
      then (busy, taken)
      else (served d a, release redis sem works.releases d.model slot.used_reserved after)

  -- From the definition on; `readable` is whether a body that is read after the checks can be read.
  unfoldable pub admitted : HttpRequest → Bool → Def → Store → Answer A × Store
  unfolding rate_checked time_checked slot_taken is_priority
  admitted r readable d s =
      let decision = check_access glob h.authz r d in
      let request = limited r decision in
      if not (model_visible h r d)
      then (hidden, s)
      else if not decision.allowed
      then (forbidden, s)
      else rate_checked h.rate_limiter request d s λ counted.
        time_checked h.processing_limiter request d counted λ checked.
          if not readable
          then (unreadable, checked)
          else slot_taken h.semaphore (is_priority h r) d checked

  unfoldable pub handle_json : ℕ → HttpRequest → Store → Answer A × Store
  unfolding admitted
  handle_json now r s =
      if not r.parses then (unreadable, s) else elim (route_sync h.registry r.path r.model) [
        | refused e ↦ (unrouted e, s)
        | routed d ↦ admitted r true (fallen_back h now r.path d) s
      ]
