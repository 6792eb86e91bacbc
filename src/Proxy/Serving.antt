-- ===== src/Proxy/Serving.antt =====
-- llmproxy/handler.go with service/backend.go: the whole way of a request, the order drawn included.
use mathlib.Core.Logic.Or
use mathlib.Core.List.{Mem, Nodup, Nodup-cons, mem-cons, mem-cons_of_mem, not-mem-nil}
use mathlib.Core.List.Perm
use mathlib.Core.Bool.{Bool-set}
use gatew_ai.Base.{
  ℕ, ◌<◌, ◌≡◌, subst, Bool-cases, ◌⊎◌, Bool, true, false, Option, none, some, String, str_eq, List,
  [], ◌∷◌, map, All, Option-cases, ==-ne, inl, inr, arith,
}
use gatew_ai.Base.Int.{ℤ}
use gatew_ai.Redis.{Redis}
use gatew_ai.Server.{present}
use gatew_ai.RateLimit.{Limiter}
use gatew_ai.Backends.{Backend, positives, total_weight}
use gatew_ai.Backends.Ordering.{ordered_backends-Perm}
use gatew_ai.Breaker.{CircuitBreaker}
use gatew_ai.Proxy.{
  Response, Upstream, Forwarded, served, Target, effective_model, permits, World, forward, serve,
}
use gatew_ai.Proxy.Forwarding.{
  Distinct, AllBuild, first_accepted, accepted, outcome, forward-outcome,
}

abbrev pub urls : List Backend → List String
urls bs = map (λ b. b.url) bs

absent_url :
    (u : String) (bs : List Backend) → ¬ Mem u (urls bs) → All (λ c. str_eq u c.url ≡ false) bs
absent_url u [] h = tt
absent_url u (c ∷ cs) h = (
  ==-ne u c.url (λ e. h (mem-cons.1 (Or.inl e))),
  absent_url u cs (λ m. h (mem-cons_of_mem c.url m)),
)

Nodup-Distinct : (bs : List Backend) → Nodup (urls bs) → Distinct bs
Nodup-Distinct [] h = tt
Nodup-Distinct (b ∷ bs) h =
    (absent_url b.url bs (Nodup-cons.0 h).0, Nodup-Distinct bs (Nodup-cons.0 h).1)

module _ (d : Target) (net : Upstream) where
  -- A backend that the circuits admit and that answers below 500.
  abbrev pub IsUsable : Option CircuitBreaker → Backend → Type 0
  IsUsable cb b =
      (permits cb b.url (net.turn b) ≡ true)
      × (resp : Response) × (net.answer b ≡ some resp)
      × (resp.status < 500)

  here :
      (cb : Option CircuitBreaker) (b : Backend) (bs : List Backend)
      → IsUsable cb b
      → present (first_accepted d net cb (b ∷ bs)) ≡ true
  unfolding first_accepted accepted
  here cb b bs (p, resp, a, l) = ground (arith, p, a, l)

  later :
      (cb : Option CircuitBreaker) (b : Backend) (bs : List Backend)
      → present (first_accepted d net cb bs) ≡ true
      → present (first_accepted d net cb (b ∷ bs)) ≡ true
  unfolding first_accepted accepted
  later cb b bs h = ground (arith, h)

  usable_found :
      (cb : Option CircuitBreaker) (b : Backend) (bs : List Backend)
      → Mem b bs
      → IsUsable cb b
      → present (first_accepted d net cb bs) ≡ true
  usable_found cb b [] m u = absurd (not-mem-nil m)
  usable_found cb b (c ∷ cs) m u =
      Or.elim (Bool-set _ _) (mem-cons.0 m)
        (λ e. subst (λ x. present (first_accepted d net cb (x ∷ cs)) ≡ true) e (here cb b cs u))
        (λ n. later cb c cs (usable_found cb b cs n u))

  abbrev IsServed : Option Forwarded → Type 0
  IsServed o =
      (model url : String) × (resp : Response) × (o ≡ some (served model url resp))
      × (resp.status < 500)

  accepted-IsServed :
      (b : Backend) (a : Option Response)
      → present (accepted d net b a) ≡ true
      → IsServed (accepted d net b a)
  unfolding accepted
  accepted-IsServed b none h = absurd (ground (arith, h))
  accepted-IsServed b (some resp) h = (effective_model d b, b.url, resp, ground arith, ground arith)

  first_accepted-IsServed :
      (cb : Option CircuitBreaker) (bs : List Backend)
      → present (first_accepted d net cb bs) ≡ true
      → IsServed (first_accepted d net cb bs)
  unfolding first_accepted
  first_accepted-IsServed cb [] h = absurd (ground (arith, h))
  first_accepted-IsServed cb (b ∷ bs) h = elim (Bool-cases (permits cb b.url (net.turn b))) [
    | inr shut ↦
        let (m, u, resp, e, l) = first_accepted-IsServed cb bs (ground (arith, shut, h)) in
        (m, u, resp, ground (arith, shut, e), l)
    | inl open_ ↦ elim (Option-cases (accepted d net b (net.answer b))) [
      | inl e ↦
          let (m, u, resp, q, l) = first_accepted-IsServed cb bs (ground (arith, open_, e, h)) in
          (m, u, resp, ground (arith, open_, e, q), l)
      | inr (f, e) ↦
          let (m, u, resp, q, l) = accepted-IsServed b (net.answer b) (ground (arith, e)) in
          (m, u, resp, ground (arith, open_, e, q), l)
    ]
  ]

module _ (redis : Redis) (parse_duration : String → Option ℤ) (limiter : Option Limiter)
    (up : String → Bool) (d : Target) (net : Upstream) where
  open redis use {Store}

  all_build :
      ((b : Backend) → net.builds b ≡ true)
      → (bs : List Backend) → AllBuild redis parse_duration limiter up d net bs
  all_build g [] = tt
  all_build g (b ∷ bs) = (g b, all_build g bs)

  -- For a service with no pool, of backends with urls of their own and for which the provider builds its
  -- requests, and with a valid draw for the order: if the circuits, as they stand before the request,
  -- admit a backend that answers below 500, the request is answered by a backend, below 500.
  pub serve-IsUsable :
      (r : ℕ) (bs : List Backend) (w : World Store) (b : Backend)
      → (r < total_weight (positives bs)) ⊎ (positives bs ≡ [])
      → d.pool_name ≡ ""
      → ((c : Backend) → net.builds c ≡ true)
      → Nodup (urls bs)
      → Mem b bs
      → IsUsable d net w.breaker b
      → (model url : String) × (resp : Response) × (after : World Store) × (serve redis
            parse_duration limiter up d net r bs w
          ≡ some (served model url resp, after))
        × (resp.status < 500)
  unfolding serve outcome
  serve-IsUsable r bs w b drawn p g n m u =
      let (order, e, perm) = ordered_backends-Perm r bs drawn in
      let distinct = Nodup-Distinct order (Perm.nodup (Perm.symm (Perm.map (λ c. c.url) perm)) n) in
      let found = usable_found d net w.breaker b order ((Perm.mem_iff perm).1 m) u in
      let (model, url, resp, q, l) = first_accepted-IsServed d net w.breaker order found in
      let made =
        forward-outcome redis parse_duration limiter up d net order w p distinct
          (all_build g order) in
      (
        model,
        url,
        resp,
        (forward redis parse_duration limiter up d net 0 order w).1,
        ground (arith, e, made, q),
        l,
      )
