-- ===== src/RateLimit/Quotas/Restored.antt =====
-- ratelimit.go: what the checks answer after ResetQuota.
use text.Mathlib.TextLemmas.{append_assoc}
use gatew_ai.Base.{
  ◌||◌, Bool-cases, ℕ, ◌≡◌, refl, sym, ap, ◌∙◌, Bool, true, false, Option, none, some, String,
  append, arith, Option-cases, inl, inr, List,
}
use gatew_ai.Base.Int.{ℤ, pos, leb_ℤ, ◌+ℤ◌}
use gatew_ai.Redis.{Redis}
use gatew_ai.RateLimit.{
  RateLimitConfig, Limiter, Request, Identity, resolve_identity, no_limits, key₃,
}
use gatew_ai.RateLimit.Requests.{service_key, policy_key, check}
use gatew_ai.RateLimit.Requests.Verdicts.{
  budget_verdict, service_verdict, policy_verdict, is_error, is_failure, grants, allowed-check,
}
use gatew_ai.RateLimit.Window.Pools.{Verdict, passes, fails, refuses}
use gatew_ai.RateLimit.Tokens.{
  token_key, policy_token_key, processing_key, check_tokens, check_processing_time, token_result,
  processing_result,
}
use gatew_ai.RateLimit.Quotas.{ScanReply, reset_quota}
use gatew_ai.RateLimit.Quotas.Fresh.{Finds, AreGone-reset_quota}

-- No rate is below 0.
pub record IsBudget (cfg : RateLimitConfig) : Type 0 where
  pub rate : leb_ℤ (pos 0) cfg.rate ≡ true
  pub token_rate : leb_ℤ (pos 0) cfg.token_rate ≡ true
  pub time : leb_ℤ (pos 0) cfg.processing_time ≡ true

abbrev refused_by : Verdict → Bool
refused_by refuses = true
refused_by v = false

module _ (redis : Redis) (parse_duration : String → Option ℤ) (up : String → Bool) where
  open redis use {Store, get_int}

  fresh-budget_verdict :
      (key : String) (cfg : RateLimitConfig) (t : Store)
      → leb_ℤ (pos 0) cfg.rate ≡ true
      → get_int t key ≡ none
      → refused_by (budget_verdict redis parse_duration up key cfg t) ≡ false
  unfolding budget_verdict ◌+ℤ◌
  fresh-budget_verdict key cfg t h k = ground (arith, h, k)

  fresh-service_verdict :
      (o : Option (String → Option RateLimitConfig)) (service : String) (i : Identity) (t : Store)
      → leb_ℤ (pos 0) i.config.rate ≡ true
      → get_int t (service_key service i) ≡ none
      → refused_by (service_verdict redis parse_duration up o service i t) ≡ false
  unfolding service_verdict
  fresh-service_verdict none service i t h k = refl
  fresh-service_verdict (some m) service i t h k =
      fresh-budget_verdict (service_key service i) i.config t h k

  fresh-policy_verdict :
      (o : Option RateLimitConfig) (service : String) (i : Identity) (t : Store)
      → ((cfg : RateLimitConfig) → o ≡ some cfg → leb_ℤ (pos 0) cfg.rate ≡ true)
      → get_int t (policy_key service i) ≡ none
      → refused_by (policy_verdict redis parse_duration up o service i t) ≡ false
  unfolding policy_verdict
  fresh-policy_verdict none service i t h k = refl
  fresh-policy_verdict (some cfg) service i t h k =
      ground (arith, fresh-budget_verdict (policy_key service i) cfg t (h cfg refl) k)

  granted :
      (v w : Verdict)
      → is_failure v ≡ false
      → refused_by v ≡ false
      → refused_by w ≡ false
      → grants v w ≡ true
  granted passes passes h k l = refl
  granted passes fails h k l = refl
  granted passes refuses h k l = cc
  granted fails w h k l = cc
  granted refuses w h k l = cc

  -- What is left of the budgets of a request's consumer for a service.
  module _ (l : Limiter) (r : Request) (service : String) (t : Store) where
    abbrev who : Identity
    who = resolve_identity l r service

    fresh-check :
        leb_ℤ (pos 0) who.config.rate ≡ true
        → ((cfg : RateLimitConfig) → r.policy ≡ some cfg → leb_ℤ (pos 0) cfg.rate ≡ true)
        → get_int t (service_key service who) ≡ none
        → get_int t (policy_key service who) ≡ none
        → (is_error (check redis parse_duration l up r service t).0.error
            || (check redis parse_duration l up r service t).0.result.allowed)
          ≡ true
    fresh-check h k a b =
        let (allows, errs) = allowed-check redis parse_duration up l r service t in
        let answer = (check redis parse_duration l up r service t).0 in
        elim (Bool-cases (is_error answer.error)) [
          | inl e ↦ ground (arith, e)
          | inr e ↦
              let given : answer.result.allowed ≡ true =
                allows
                ∙ granted _ _ (sym errs ∙ e)
                    (fresh-service_verdict (l.limits service) service who t h a)
                    (fresh-policy_verdict r.policy service who t k b) in
              ground (arith, given)
        ]

    fresh-check_tokens :
        leb_ℤ (pos 0) who.config.token_rate ≡ true
        → ((cfg : RateLimitConfig) → r.policy ≡ some cfg → leb_ℤ (pos 0) cfg.token_rate ≡ true)
        → get_int t (token_key who.consumer service who.user_type) ≡ none
        → get_int t (policy_token_key who.consumer service) ≡ none
        → (check_tokens redis parse_duration l up r service t).result.allowed ≡ true
    unfolding check_tokens token_result
    fresh-check_tokens h k a b = elim (Option-cases r.policy) [
      | inl e ↦ ground (arith, h, a, e, parse_duration who.config.token_period)
      | inr (cfg, e) ↦ ground (
        arith,
        h,
        a,
        b,
        e,
        k cfg e,
        parse_duration who.config.token_period,
        parse_duration cfg.token_period,
      )
    ]

    fresh-check_processing_time :
        leb_ℤ (pos 0) who.config.processing_time ≡ true
        → get_int t (processing_key who.consumer service who.user_type) ≡ none
        → (check_processing_time redis parse_duration l up r service t).result.allowed ≡ true
    unfolding check_processing_time processing_result
    fresh-check_processing_time h a =
        ground (arith, h, a, parse_duration who.config.processing_period)

  -- After a reset for the consumer of a request and its service, and while no rate is below 0, the request is
  -- within its budgets again, whatever it and others spent: its check passes, unless it gives an
  -- error, and so do the checks of its tokens and of its processing time, whatever its user type.
  -- The scans find each key that is there and begins as their pattern does.
  pub allowed-reset_quota :
      (replies : String → List ScanReply) (l : Limiter) (r : Request) (service model : String)
      (s t : Store) (n : ℕ)
      → IsBudget (resolve_identity l r service).config
      → ((cfg : RateLimitConfig) → r.policy ≡ some cfg → IsBudget cfg)
      → Finds redis replies s "rl:" (resolve_identity l r service).consumer service
      → Finds redis replies s "trl:" (resolve_identity l r service).consumer service
      → Finds redis replies s "ptrl:" (resolve_identity l r service).consumer service
      → reset_quota redis replies true (resolve_identity l r service).consumer service model s
        ≡ (some n, t)
      → ((is_error (check redis parse_duration l up r service t).0.error
            || (check redis parse_duration l up r service t).0.result.allowed)
          ≡ true)
        × ((check_tokens redis parse_duration l up r service t).result.allowed ≡ true)
        × ((check_processing_time redis parse_duration l up r service t).result.allowed ≡ true)
  allowed-reset_quota replies l r service model s t n b p calls tokens time done =
      let i = resolve_identity l r service in
      let gone =
        AreGone-reset_quota redis replies i.consumer service model s t n done calls tokens time in
      (
        fresh-check l r service t b.rate (λ cfg e. (p cfg e).rate) (gone.calls i.user_type)
            gone.policy_calls,
        fresh-check_tokens l r service t b.token_rate (λ cfg e. (p cfg e).token_rate)
            (gone.tokens i.user_type) gone.policy_tokens,
        fresh-check_processing_time l r service t b.time (gone.time i.user_type),
      )

-- A consumer whose name is another's, a colon and a service.
abbrev pub within : String → String → String
within consumer service = append consumer (append ":" service)

key-within :
    (prefix consumer service other user_type : String)
    → key₃ prefix (within consumer service) other user_type
      ≡ key₃ prefix consumer service (append other (append ":" user_type))
key-within prefix consumer service other user_type = simp append_assoc refl

-- A reset for a consumer and a service takes the counters of calls, tokens and processing time, for every
-- service and user type, away from each consumer whose name is theirs with a colon between them.
pub within-reset_quota :
    (redis : Redis) (replies : String → List ScanReply)
    (consumer service model other user_type : String) (s t : redis.Store) (n : ℕ)
    → Finds redis replies s "rl:" consumer service
    → Finds redis replies s "trl:" consumer service
    → Finds redis replies s "ptrl:" consumer service
    → reset_quota redis replies true consumer service model s ≡ (some n, t)
    → let i : Identity = record {
      consumer = within consumer service;
      user_type = user_type;
      config = no_limits;
    } in
      (redis.get_int t (service_key other i) ≡ none)
      × (redis.get_int t (token_key (within consumer service) other user_type) ≡ none)
      × (redis.get_int t (processing_key (within consumer service) other user_type) ≡ none)
within-reset_quota redis replies consumer service model other user_type s t n calls tokens time
      done =
    let gone =
      AreGone-reset_quota redis replies consumer service model s t n done calls tokens time in
    let same = λ (prefix : String).
      ap (redis.get_int t) (key-within prefix consumer service other user_type) in
    (same "rl:" ∙ gone.calls _, same "trl:" ∙ gone.tokens _, same "ptrl:" ∙ gone.time _)
