-- ===== src/Admission/Alike.antt =====
-- sync.go: two ways to serve a request are preceded by the same checks, with the same refusals.
use gatew_ai.Base.{
  ◌≡◌, ◌⊎◌, refl, Bool, true, Option, none, some, String, Bool-cases, Option-cases, inl, inr,
}
use gatew_ai.Base.Int.{ℤ}
use gatew_ai.Redis.{Redis}
use gatew_ai.RateLimit.{Limiter, Request}
use gatew_ai.RateLimit.Requests.{check}
use gatew_ai.RateLimit.Tokens.{check_processing_time}
use gatew_ai.Semaphore.{SlotCalls, ModelSemaphore, try_acquire}
use gatew_ai.Registry.Configs.{Def}
use gatew_ai.Admission.{
  SyncHandler, HttpRequest, Answer, unrouted, hidden, forbidden, rate_limited, out_of_budget,
  unreadable, busy, served, model_visible, check_access, rate_checked, time_checked, slot_taken,
  is_priority, admitted,
}

-- A refusal is an answer that serves nothing.
abbrev refuses : {A : Type 0} → Answer ⊥ → Answer A
refuses (unrouted e) = unrouted e
refuses hidden = hidden
refuses forbidden = forbidden
refuses (rate_limited n) = rate_limited n
refuses (out_of_budget n) = out_of_budget n
refuses unreadable = unreadable
refuses busy = busy
refuses (served d a) = absurd a

module _ (redis : Redis) (parse_duration : String → Option ℤ) (glob : String → String → Option Bool)
    (up : String → Bool) (works : SlotCalls) (h : SyncHandler) {A B : Type 0}
    (proxy : Def → redis.Store → A × redis.Store) (serve : Def → redis.Store → B × redis.Store)
    (d : Def) where
  open redis use {Store}

  abbrev AnswerA : Type 0
  AnswerA = Answer A × Store

  abbrev AnswerB : Type 0
  AnswerB = Answer B × Store

  -- The same refusal and the same store, or the same model, served from the same store.
  abbrev pub Alike : AnswerA → AnswerB → Type 0
  Alike x y =
      ((z : Answer ⊥) × (t : Store) × (x ≡ (refuses z, t)) × (y ≡ (refuses z, t)))
      ⊎ ((t : Store) × (x.0 ≡ served d (proxy d t).0) × (y.0 ≡ served d (serve d t).0))

  rate-Alike :
      (l : Option Limiter) (r : Request) (s : Store) (f : Store → AnswerA) (g : Store → AnswerB)
      → ((t : Store) → Alike (f t) (g t))
      → Alike
          (rate_checked redis parse_duration glob up works h proxy l r d s f)
          (rate_checked redis parse_duration glob up works h serve l r d s g)
  unfolding rate_checked
  rate-Alike none r s f g goes = goes s
  rate-Alike (some l) r s f g goes =
      let (reply, after) = check redis parse_duration l up r d.service_type s in
      elim (Option-cases reply.error) [
        | inr (x, e) ↦ rw (rate_checked, e) (goes after)
        | inl e ↦ elim (Bool-cases reply.result.allowed) [
          | inl a ↦ rw (rate_checked, e, a) (goes after)
          | inr a ↦
              rw (rate_checked, e, a)
                (inl (rate_limited reply.result.reset_after, after, refl, refl))
        ]
      ]

  time-Alike :
      (l : Option Limiter) (r : Request) (s : Store) (f : Store → AnswerA) (g : Store → AnswerB)
      → ((t : Store) → Alike (f t) (g t))
      → Alike
          (time_checked redis parse_duration glob up works h proxy l r d s f)
          (time_checked redis parse_duration glob up works h serve l r d s g)
  unfolding time_checked
  time-Alike none r s f g goes = goes s
  time-Alike (some l) r s f g goes =
      let reply = check_processing_time redis parse_duration l up r d.service_type s in
      elim (Option-cases reply.error) [
        | inr (x, e) ↦ rw (time_checked, e) (goes s)
        | inl e ↦ elim (Bool-cases reply.result.allowed) [
          | inl a ↦ rw (time_checked, e, a) (goes s)
          | inr a ↦
              rw (time_checked, e, a) (inl (out_of_budget reply.result.reset_after, s, refl, refl))
        ]
      ]

  slot-Alike :
      (sem : Option ModelSemaphore) (priority : Bool) (s : Store)
      → Alike
          (slot_taken redis parse_duration glob up works h proxy sem priority d s)
          (slot_taken redis parse_duration glob up works h serve sem priority d s)
  unfolding slot_taken
  slot-Alike none priority s = inr (s, refl, refl)
  slot-Alike (some sem) priority s =
      let (slot, taken) = try_acquire redis sem works.acquires d.model priority s in
      elim (Bool-cases slot.granted) [
        | inl a ↦ rw (slot_taken, a) (inr (taken, refl, refl))
        | inr a ↦ rw (slot_taken, a) (inl (busy, taken, refl, refl))
      ]

  pub admitted-Alike :
      (r : HttpRequest) (s : Store)
      → Alike
          (admitted redis parse_duration glob up works h proxy r true d s)
          (admitted redis parse_duration glob up works h serve r true d s)
  unfolding admitted
  admitted-Alike r s =
      let decision = check_access glob h.authz r d in
      let request : Request = record { header = r.header; policy = decision.limits } in
      elim (Bool-cases (model_visible h r d)) [
        | inr a ↦ rw (admitted, a) (inl (hidden, s, refl, refl))
        | inl a ↦ elim (Bool-cases decision.allowed) [
          | inr b ↦ rw (admitted, a, b) (inl (forbidden, s, refl, refl))
          | inl b ↦
              rw (admitted, a, b)
                (rate-Alike h.rate_limiter request s _ _ λ t.
                  time-Alike h.processing_limiter request t _ _
                    λ u. slot-Alike h.semaphore (is_priority h r) u)
        ]
      ]
