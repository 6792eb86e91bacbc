-- ===== src/Proxy/Forwarding.antt =====
-- llmproxy/handler.go: which backend answers a request, told without the loop.
use gatew_ai.Base.{
  ℕ, zero, suc, ◌≡◌, refl, ◌∙◌, Bool, true, false, Option, none, some, String, str_eq, leb, List,
  [], ◌∷◌, All, if◌then◌else◌, arith,
}
use gatew_ai.Base.Int.{ℤ}
use gatew_ai.Redis.{Redis}
use gatew_ai.RateLimit.{Limiter}
use gatew_ai.Backends.{Backend}
use gatew_ai.Breaker.{CircuitBreaker, failed, step, allow, record_failure}
use gatew_ai.Breaker.Isolation.{step-Alike_ne}
use gatew_ai.Proxy.{
  Response, Upstream, Forwarded, served, bad_gateway, unavailable, internal_error, Target,
  effective_model, permits, after_failure, after_success, World, forward, Turn, next, turn_of,
  pooled-no_pool, answered,
}
use gatew_ai.Proxy

-- Every backend has a url of its own.
abbrev pub Distinct : List Backend → Type 0
Distinct [] = Unit
Distinct (b ∷ bs) = All (λ c. str_eq b.url c.url ≡ false) bs × Distinct bs

allow-record_failure :
    (cb : CircuitBreaker) (model url : String) (now : ℕ) (other : String) (later : ℕ)
    → str_eq url other ≡ false
    → allow (record_failure cb model url now) other later ≡ allow cb other later
unfolding allow step
allow-record_failure cb model url now other later h =
    ground (arith, step-Alike_ne cb (failed model url now) other h)

-- A failure of one backend does not change whether another one may be tried.
permits-after_failure :
    (cb : Option CircuitBreaker) (model url : String) (now : ℕ) (other : String) (later : ℕ)
    → str_eq url other ≡ false
    → permits (after_failure cb model url now) other later ≡ permits cb other later
unfolding permits after_failure
permits-after_failure none model url now other later h = refl
permits-after_failure (some cb) model url now other later h =
    allow-record_failure cb model url now other later h

module _ (d : Target) (net : Upstream) where
  -- The answer of a backend counts if it is below 500.
  unfoldable pub accepted : Backend → Option Response → Option Forwarded
  accepted b none = none
  accepted b (some resp) =
      if leb 500 resp.status then none else some (served (effective_model d b) b.url resp)

  -- The first backend that may be tried and whose answer counts.
  unfoldable pub first_accepted : Option CircuitBreaker → List Backend → Option Forwarded
  unfolding accepted
  first_accepted cb [] = none
  first_accepted cb (b ∷ bs) =
      let rest = first_accepted cb bs in
      if permits cb b.url (net.turn b)
      then elim (accepted b (net.answer b)) [ none ↦ rest | some result ↦ some result ]
      else rest

  unfoldable pub some_permitted : Option CircuitBreaker → List Backend → Bool
  some_permitted cb [] = false
  some_permitted cb (b ∷ bs) =
      let rest = some_permitted cb bs in if permits cb b.url (net.turn b) then true else rest

  -- What a request comes to, by the state of the circuits before it.
  unfoldable pub outcome : Option CircuitBreaker → List Backend → Forwarded
  outcome cb bs = elim (first_accepted cb bs) [
    | none ↦ if some_permitted cb bs then bad_gateway else unavailable
    | some result ↦ result
  ]

module _ (redis : Redis) (parse_duration : String → Option ℤ) (limiter : Option Limiter)
    (up : String → Bool) (d : Target) (net : Upstream) where
  open redis use {Store}

  abbrev pub AllBuild : List Backend → Type 0
  AllBuild bs = All (λ b. net.builds b ≡ true) bs

  abbrev Agree : Option CircuitBreaker → Option CircuitBreaker → List Backend → Type 0
  Agree a b bs = All (λ c. permits a c.url (net.turn c) ≡ permits b c.url (net.turn c)) bs

  Agree-refl : (a : Option CircuitBreaker) (bs : List Backend) → Agree a a bs
  Agree-refl a [] = tt
  Agree-refl a (b ∷ bs) = (refl, Agree-refl a bs)

  Agree-failure :
      (a b : Option CircuitBreaker) (model url : String) (now : ℕ) (bs : List Backend)
      → All (λ c. str_eq url c.url ≡ false) bs
      → Agree a b bs
      → Agree (after_failure a model url now) b bs
  Agree-failure a b model url now [] h g = tt
  Agree-failure a b model url now (c ∷ cs) h g = (
    permits-after_failure a model url now c.url (net.turn c) h.0 ∙ g.0,
    Agree-failure a b model url now cs h.1 g.1,
  )

  continued : ℕ → Option Forwarded → Bool → Forwarded
  continued tried (some result) permitted = result
  continued zero none permitted = if permitted then bad_gateway else unavailable
  continued (suc tried) none permitted = bad_gateway

  turn_of-unpooled :
      (tried : ℕ) (b : Backend) (w : World Store)
      → d.pool_name ≡ ""
      → net.builds b ≡ true
      → turn_of redis parse_duration limiter up d net tried b w ≡ (
          if permits w.breaker b.url (net.turn b)
          then answered redis parse_duration limiter up d net tried b w (net.answer b)
          else next tried w)
  unfolding turn_of
  turn_of-unpooled tried b w p u =
      ground (arith, pooled-no_pool redis parse_duration up limiter d.pool_name b.url w.store p)

  forward-continued :
      (tried : ℕ) (bs : List Backend) (cb : Option CircuitBreaker) (w : World Store)
      → d.pool_name ≡ ""
      → Distinct bs
      → AllBuild bs
      → Agree w.breaker cb bs
      → (forward redis parse_duration limiter up d net tried bs w).0
        ≡ continued tried (first_accepted d net cb bs) (some_permitted d net cb bs)
  unfolding forward answered Proxy.failed continued first_accepted some_permitted accepted
  forward-continued zero [] cb w p u g a = refl
  forward-continued (suc tried) [] cb w p u g a = ground arith
  forward-continued tried (b ∷ bs) cb w p u g a =
      let noted = after_failure w.breaker d.model b.url (net.failed_at b) in
      let later =
        forward-continued (suc tried) bs cb (record w { breaker = noted }) p u.1 g.1
          (Agree-failure w.breaker cb d.model b.url (net.failed_at b) bs u.0 a.1) in
      let skipped = forward-continued tried bs cb w p u.1 g.1 a.1 in
      ground (arith, turn_of-unpooled tried b w p g.0, a.0, later, skipped)

  -- For a service with no pool, of backends with urls of their own and for which the provider builds its
  -- requests, the answer is that of the first backend that the circuits admit at its turn, as they stand
  -- before the request, and that answers below 500; if none does so it is 502, and 503 if none was admitted.
  pub forward-outcome :
      (bs : List Backend) (w : World Store)
      → d.pool_name ≡ ""
      → Distinct bs
      → AllBuild bs
      → (forward redis parse_duration limiter up d net 0 bs w).0 ≡ outcome d net w.breaker bs
  unfolding outcome continued
  forward-outcome bs w p u g =
      ground (arith, forward-continued 0 bs w.breaker w p u g (Agree-refl w.breaker bs))
