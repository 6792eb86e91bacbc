-- ===== src/Admission/Serving.antt =====
-- sync.go: what is served was allowed.
use gatew_ai.Base.{
  ℕ, ◌≡◌, ◌⊎◌, refl, sym, ap, subst, ◌∙◌, Bool, true, false, not, Option, none, some, String,
  str_eq, arith, Bool-cases, Option-cases, inl, inr, if◌then◌else◌,
}
use gatew_ai.Base.Int.{ℤ}
use gatew_ai.Redis.{Redis}
use gatew_ai.RateLimit.{Limiter, Request}
use gatew_ai.RateLimit.Requests.{check}
use gatew_ai.RateLimit.Tokens.{check_processing_time}
use gatew_ai.Semaphore.{SlotCalls, ModelSemaphore, try_acquire}
use gatew_ai.Registry.Configs.{Def}
use gatew_ai.Registry.Routes.{RouteError, Routed, routed, refused, route_sync}
use gatew_ai.Admission.{
  SyncHandler, HttpRequest, Answer, served, unreadable, is_llm, backends_degraded, fallen_back,
  model_visible, check_access, rate_checked, time_checked, slot_taken, is_priority, admitted,
  handle_json,
}

pub Routed-cases :
    (x : Routed) → ((d : Def) × (x ≡ routed d)) ⊎ ((e : RouteError) × (x ≡ refused e))
Routed-cases (routed d) = inl (d, refl)
Routed-cases (refused e) = inr (e, refl)

-- A model stands for itself, or for one on the same path whose backends are all open.
abbrev pub StandsFor : SyncHandler → ℕ → String → Def → Def → Type 0
StandsFor h now path d e =
    (e ≡ d)
    ⊎ ((backends_degraded h.breaker now d.backends ≡ true)
        × (route_sync h.registry path d.fallback_model ≡ routed e)
        × (is_llm e ≡ true))

fallen_back-StandsFor :
    (h : SyncHandler) (now : ℕ) (path : String) (d : Def)
    → StandsFor h now path d (fallen_back h now path d)
unfolding fallen_back
fallen_back-StandsFor h now path d =
    elim (Bool-cases (backends_degraded h.breaker now d.backends)) [
      | inr e ↦ inl (ground (arith, e))
      | inl e ↦ elim (Routed-cases (route_sync h.registry path d.fallback_model)) [
        | inr (x, f) ↦ inl (ground (arith, f))
        | inl (b, f) ↦ elim (Bool-cases (is_llm b)) [
          | inr g ↦ inl (ground (arith, f, g))
          | inl g ↦ elim (Bool-cases (str_eq d.fallback_model "")) [
            | inl n ↦ inl (ground (arith, n))
            | inr n ↦
                let same : fallen_back h now path d ≡ b = ground (arith, e, f, g, n) in
                inr (e, f ∙ ap routed (sym same), ap is_llm same ∙ g)
          ]
        ]
      ]
    ]

module _ (redis : Redis) (parse_duration : String → Option ℤ) (glob : String → String → Option Bool)
    (up : String → Bool) (works : SlotCalls) (h : SyncHandler) {A : Type 0}
    (serve : Def → redis.Store → A × redis.Store) where
  open redis use {Store}

  abbrev pub IsGiven : Def → A → Type 0
  IsGiven d a = (t : Store) × ((serve d t).0 ≡ a)

  abbrev IsOf : Def → Answer A × Store → Type 0
  IsOf d answer = (e : Def) (a : A) → answer.0 ≡ served e a → (e ≡ d) × IsGiven d a

  rate-IsOf :
      (l : Option Limiter) (r : Request) (d : Def) (s : Store) (next : Store → Answer A × Store)
      → ((t : Store) → IsOf d (next t))
      → IsOf d (rate_checked redis parse_duration glob up works h serve l r d s next)
  unfolding rate_checked
  rate-IsOf none r d s next k e a q = k s e a q
  rate-IsOf (some l) r d s next k e a q =
      let (reply, after) = check redis parse_duration l up r d.service_type s in
      elim (Option-cases reply.error) [
        | inr (x, f) ↦ k after e a (ground (arith, f, q))
        | inl f ↦ elim (Bool-cases reply.result.allowed) [
          | inl g ↦ k after e a (ground (arith, f, g, q))
          | inr g ↦ ground (arith, f, g, q)
        ]
      ]

  time-IsOf :
      (l : Option Limiter) (r : Request) (d : Def) (s : Store) (next : Store → Answer A × Store)
      → ((t : Store) → IsOf d (next t))
      → IsOf d (time_checked redis parse_duration glob up works h serve l r d s next)
  unfolding time_checked
  time-IsOf none r d s next k e a q = k s e a q
  time-IsOf (some l) r d s next k e a q =
      let reply = check_processing_time redis parse_duration l up r d.service_type s in
      elim (Option-cases reply.error) [
        | inr (x, f) ↦ k s e a (ground (arith, f, q))
        | inl f ↦ elim (Bool-cases reply.result.allowed) [
          | inl g ↦ k s e a (ground (arith, f, g, q))
          | inr g ↦ ground (arith, f, g, q)
        ]
      ]

  slot-IsOf :
      (sem : Option ModelSemaphore) (priority : Bool) (d : Def) (s : Store)
      → IsOf d (slot_taken redis parse_duration glob up works h serve sem priority d s)
  unfolding slot_taken
  slot-IsOf none priority d s e a q = (ground (arith, q), (s, ground (arith, q)))
  slot-IsOf (some sem) priority d s e a q =
      let (slot, taken) = try_acquire redis sem works.acquires d.model priority s in
      elim (Bool-cases slot.granted) [
        | inr f ↦ ground (arith, f, q)
        | inl f ↦ (ground (arith, f, q), (taken, ground (arith, f, q)))
      ]

  last-IsOf :
      (r : HttpRequest) (readable : Bool) (d : Def) (s : Store)
      → IsOf d (
          if not readable
          then (unreadable, s)
          else slot_taken redis parse_duration glob up works h serve h.semaphore
              (is_priority h r)
              d
              s)
  last-IsOf r true d s e a q = slot-IsOf h.semaphore (is_priority h r) d s e a q
  last-IsOf r false d s e a q = ground (arith, q)

  served-admitted :
      (r : HttpRequest) (readable : Bool) (d e : Def) (a : A) (s : Store)
      → (admitted redis parse_duration glob up works h serve r readable d s).0 ≡ served e a
      → ((e ≡ d) × IsGiven d a)
        × (model_visible h r d ≡ true)
        × ((check_access glob h.authz r d).allowed ≡ true)
  unfolding admitted
  served-admitted r readable d e a s q =
      let decision = check_access glob h.authz r d in
      let request : Request = record { header = r.header; policy = decision.limits } in
      elim (Bool-cases (model_visible h r d)) [
        | inr f ↦ ground (arith, f, q)
        | inl f ↦ elim (Bool-cases decision.allowed) [
          | inr g ↦ ground (arith, f, g, q)
          | inl g ↦ (
            rate-IsOf h.rate_limiter request d s
                (λ t.
                  time_checked redis parse_duration glob up works h serve h.processing_limiter
                    request d t
                    λ u.
                      if not readable
                      then (unreadable, u)
                      else slot_taken redis parse_duration glob up works h serve h.semaphore
                          (is_priority h r) d u)
                (λ t. time-IsOf h.processing_limiter request d t _ (λ u. last-IsOf r readable d u))
                e a (ground (arith, f, g, q)),
            f,
            g,
          )
        ]
      ]

  -- What is served for a JSON request is the model that the route finds, or its fallback on the same path when the
  -- circuits of all its backends are open; and the model that is served is one that the caller
  -- may see and that the policy allows; the answer is what serving that model gave.
  pub served-handle_json :
      (now : ℕ) (r : HttpRequest) (e : Def) (a : A) (s : Store)
      → (handle_json redis parse_duration glob up works h serve now r s).0 ≡ served e a
      → ((d : Def) × (route_sync h.registry r.path r.model ≡ routed d) × StandsFor h now r.path d e)
        × (model_visible h r e ≡ true)
        × ((check_access glob h.authz r e).allowed ≡ true)
        × IsGiven e a
  unfolding handle_json
  served-handle_json now r e a s q = elim (Bool-cases r.parses) [
    | inr f ↦ ground (arith, f, q)
    | inl f ↦ elim (Routed-cases (route_sync h.registry r.path r.model)) [
      | inr (x, g) ↦ ground (arith, f, g, q)
      | inl (d, g) ↦
          let used = fallen_back h now r.path d in
          let ((same, given), seen, permitted) =
            served-admitted r true used e a s (ground (arith, f, g, q)) in
          (
            (
              d,
              g,
              subst (StandsFor h now r.path d) (sym same) (fallen_back-StandsFor h now r.path d),
            ),
            ap (model_visible h r) same ∙ seen,
            ap (λ (x : Def). (check_access glob h.authz r x).allowed) same ∙ permitted,
            subst (λ (x : Def). IsGiven x a) (sym same) given,
          )
    ]
  ]
