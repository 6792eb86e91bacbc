-- ===== src/Proxy.antt =====
-- internal/llmproxy/handler.go: how ServeJSON forwards a request to the backends of a service, with the
-- circuit breaker (Breaker), the order of the backends (Backends) and the limits of their pool
-- (RateLimit). What the network answers, whether the provider builds a request, and the clock's readings
-- are arguments, by backend. Metrics, traces and the cache are left out.
pub mod Forwarding
pub mod Serving
pub mod Examples
use gatew_ai.Base.{
  ℕ, zero, suc, ◌≡◌, refl, arith, eq_iff, Bool, true, false, not, ◌&&◌, Option, none, some, String,
  str_eq, leb, ◌==◌, List, [], ◌∷◌, if◌then◌else◌,
}
use gatew_ai.Base.Int.{ℤ}
use gatew_ai.Redis.{Redis}
use gatew_ai.RateLimit.{Limiter, CheckResult}
use gatew_ai.RateLimit.Window.{check_backend_pool}
use gatew_ai.Backends.{Backend, ordered_backends}
use gatew_ai.Breaker.{CircuitBreaker, allow, record_success, record_failure}

pub record Response : Type 0 where
  pub status : ℕ
  pub body : String

-- What one backend of a request meets: its requests are built or not, the answer is nothing for a network
-- error, and there are the times of its turn and of its failure.
pub record Upstream : Type 0 where
  pub builds : Backend → Bool
  pub answer : Backend → Option Response
  pub turn : Backend → ℕ
  pub failed_at : Backend → ℕ

pub data Forwarded : Type 0 where
  served : (model url : String) → Response → Forwarded  -- below 500
  bad_gateway : Forwarded  -- 502: all backends failed
  unavailable : Forwarded  -- 503: none was tried
  internal_error : Forwarded  -- 500: no request could be built

-- What is read of a service's definition.
pub record Target : Type 0 where
  pub model : String
  pub backend_model : String
  pub pool_name : String

abbrev pub effective_model : Target → Backend → String
effective_model d b = if str_eq b.model "" then d.backend_model else b.model

unfoldable pub permits : Option CircuitBreaker → String → ℕ → Bool
permits none url now = true
permits (some cb) url now = allow cb url now

unfoldable pub after_failure : Option CircuitBreaker → String → String → ℕ → Option CircuitBreaker
after_failure none model url now = none
after_failure (some cb) model url now = some (record_failure cb model url now)

unfoldable pub after_success : Option CircuitBreaker → String → String → Option CircuitBreaker
after_success none model url = none
after_success (some cb) model url = some (record_success cb model url)

pub record World (Store : Type 0) : Type 0 where
  pub breaker : Option CircuitBreaker  -- none: it is not configured
  pub store : Store

-- What the loop does with a backend: it is over, or goes on with the number of backends tried.
pub data Turn (Store : Type 0) : Type 0 where
  over : Forwarded → World Store → Turn Store
  next : ℕ → World Store → Turn Store

module _ (redis : Redis) (parse_duration : String → Option ℤ) (up : String → Bool) where
  open redis use {Store}

  -- Whether the pool of a service, if it has one, lets the backend be called.
  unfoldable pub pooled : Option Limiter → String → String → Store → Bool × Store
  pooled none pool url s = (true, s)
  pooled (some l) pool url s =
      if not (str_eq pool "")
      then (let (res, after) = check_backend_pool redis parse_duration l up pool url s in
          (res.allowed, after))
      else (true, s)

  pub pooled-no_pool :
      (l : Option Limiter) (pool url : String) (s : Store)
      → pool ≡ ""
      → pooled l pool url s ≡ (true, s)
  unfolding pooled
  pooled-no_pool none pool url s p = refl
  pooled-no_pool (some l) pool url s p = ground (arith, eq_iff pool "")

module _ (redis : Redis) (parse_duration : String → Option ℤ) (limiter : Option Limiter)
    (up : String → Bool) (d : Target) (net : Upstream) where
  open redis use {Store}

  unfoldable pub failed : ℕ → Backend → World Store → Turn Store
  failed tried b w =
      next (suc tried)
        (record w { breaker = after_failure w.breaker d.model b.url (net.failed_at b) })

  unfoldable pub answered : ℕ → Backend → World Store → Option Response → Turn Store
  unfolding failed
  answered tried b w none = failed tried b w
  answered tried b w (some resp) =
      if leb 500 resp.status
      then failed tried b w
      else over (served (effective_model d b) b.url resp)
          (record w { breaker = after_success w.breaker d.model b.url })

  unfoldable pub turn_of : ℕ → Backend → World Store → Turn Store
  unfolding pooled answered
  turn_of tried b w =
      let (allowed, after) = pooled redis parse_duration up limiter d.pool_name b.url w.store in
      let checked = record w { store = after } in
      if not (permits w.breaker b.url (net.turn b))
      then next tried w
      else if not allowed
      then next tried checked
      else if not (net.builds b)
      then over internal_error checked
      else answered tried b checked (net.answer b)

  unfoldable pub forward : ℕ → List Backend → World Store → Forwarded × World Store
  forward tried [] w = (if tried == 0 then unavailable else bad_gateway, w)
  forward tried (b ∷ bs) w = elim (turn_of tried b w) [
    | over result after ↦ (result, after)
    | next count after ↦ forward count bs after
  ]

  -- `r` is the number that is drawn for the order; none: the order panics.
  unfoldable pub serve : ℕ → List Backend → World Store → Option (Forwarded × World Store)
  serve r backends w = elim (ordered_backends r backends) [
    | none ↦ none
    | some bs ↦ some (forward 0 bs w)
  ]
