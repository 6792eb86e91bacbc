-- ===== src/RateLimit/Requests/Verdicts.antt =====
-- ratelimit.go: what Check answers, against the budgets of the service type and of the policy rule.
use gatew_ai.Base.{
  ◌≡◌, ◌≢◌, refl, ◌∙◌, true, false, Option, none, some, Bool, String, str_eq, eq_iff, prefix-ne,
  eq_refl, arith, if◌then◌else◌, Option-cases, inl, inr,
}
use gatew_ai.Base.Int.{ℤ, pos, leb_ℤ, eqb_ℤ, ◌+ℤ◌}
use gatew_ai.Redis.{Redis, or_zero}
use gatew_ai.RateLimit.{
  RateLimitConfig, Error, Reply, Limiter, Request, Identity, resolve_identity, ceil_seconds,
}
use gatew_ai.RateLimit.Window.{run_window, window_result}
use gatew_ai.RateLimit.Window.Pools.{Verdict, passes, fails, refuses, get-window_script_ne}
use gatew_ai.RateLimit.Requests.{
  service_key, policy_key, service_checked, policy_checked, after_service, check,
}

service_key-ne : (service : String) (i : Identity) → service_key service i ≢ policy_key service i
service_key-ne service i = prefix-ne "rl:" "rlp" ":" _ _ refl (ground (arith, eq_iff "rl:" "rlp"))

abbrev pub is_error : Option Error → Bool
is_error none = false
is_error (some e) = true

no_error : (o : Option Error) → is_error o ≡ false → o ≡ none
no_error o h = ground arith

abbrev pub is_failure : Verdict → Bool
is_failure fails = true
is_failure v = false

-- The service's scope must pass, and the policy's must not refuse.
abbrev pub grants : Verdict → Verdict → Bool
grants passes refuses = false
grants passes v = true
grants fails v = false
grants refuses v = false

module _ (redis : Redis) (parse_duration : String → Option ℤ) (up : String → Bool) where
  open redis use {Store, get_int, incr_by, get-incr_by}

  reached : Bool → ℤ → ℤ → Verdict
  reached false rate count = fails
  reached true rate count = if leb_ℤ (count +ℤ pos 1) rate then passes else refuses

  parsed : Option ℤ → Bool → ℤ → ℤ → Verdict
  unfolding reached
  parsed none up rate count = fails
  parsed (some period) up rate count = reached up rate count

  -- A rate other than 0 is a budget for the calls of a window.
  unfoldable pub budget_verdict : String → RateLimitConfig → Store → Verdict
  unfolding parsed
  budget_verdict key cfg s =
      if eqb_ℤ cfg.rate (pos 0)
      then passes
      else parsed (parse_duration cfg.period) (up key) cfg.rate (or_zero (get_int s key))

  unfoldable pub service_verdict :
      Option (String → Option RateLimitConfig) → String → Identity → Store → Verdict
  unfolding budget_verdict
  service_verdict none service i s = passes
  service_verdict (some _) service i s = budget_verdict (service_key service i) i.config s

  -- A caller with no name of its own has no budget under the policy.
  unfoldable pub policy_verdict : Option RateLimitConfig → String → Identity → Store → Verdict
  unfolding budget_verdict
  policy_verdict none service i s = passes
  policy_verdict (some cfg) service i s =
      if str_eq i.consumer "anonymous" then passes else budget_verdict (policy_key service i) cfg s

  get-incr :
      (key : String) (s : Store)
      → get_int (incr_by key (pos 1) s) key ≡ some (or_zero (get_int s key) +ℤ pos 1)
  get-incr key s = get-incr_by key (pos 1) s key ∙ ground (arith, eq_refl key)

  service-verdict :
      (o : Option (String → Option RateLimitConfig)) (service : String) (i : Identity) (s : Store)
      → let answer = service_checked redis parse_duration up o service i s in
        (answer.0.result.allowed ≡ grants (service_verdict o service i s) passes)
        × (is_error answer.0.error ≡ is_failure (service_verdict o service i s))
        × (get_int answer.1 (policy_key service i) ≡ get_int s (policy_key service i))
  unfolding service_checked service_verdict run_window window_result
  service-verdict none service i s = (refl, refl, refl)
  service-verdict (some m) service i s = elim (Option-cases (parse_duration i.config.period)) [
    | inl e ↦ ground (arith, e)
    | inr (p, e) ↦ ground (
      arith,
      e,
      get-incr (service_key service i) s,
      get-window_script_ne redis (service_key service i) (ceil_seconds p) s (policy_key service i)
          (service_key-ne service i),
    )
  ]

  policy-verdict :
      (o : Option RateLimitConfig) (service : String) (i : Identity) (reply : Reply) (s : Store)
      → reply.result.allowed ≡ true
      → reply.error ≡ none
      → let answer = policy_checked redis parse_duration up o service i reply s in
        (answer.0.result.allowed ≡ grants passes (policy_verdict o service i s))
        × (is_error answer.0.error ≡ false)
  unfolding policy_checked policy_verdict run_window window_result
  policy-verdict none service i reply s h k = (h, ground arith)
  policy-verdict (some cfg) service i reply s h k =
      ground (arith, get-incr (policy_key service i) s)

  policy_frame :
      (o : Option RateLimitConfig) (service : String) (i : Identity) (s t : Store)
      → get_int t (policy_key service i) ≡ get_int s (policy_key service i)
      → policy_verdict o service i t ≡ policy_verdict o service i s
  unfolding policy_verdict
  policy_frame none service i s t h = refl
  policy_frame (some cfg) service i s t h = rw h

  combined :
      (first : Reply × Store) (rest : Reply → Store → Reply × Store) (v w : Verdict)
      → first.0.result.allowed ≡ grants v passes
      → is_error first.0.error ≡ is_failure v
      → (first.0.result.allowed ≡ true
          → first.0.error ≡ none
          → ((rest first.0 first.1).0.result.allowed ≡ grants passes w)
            × (is_error (rest first.0 first.1).0.error ≡ false))
      → ((after_service redis parse_duration first rest).0.result.allowed ≡ grants v w)
        × (is_error (after_service redis parse_duration first rest).0.error ≡ is_failure v)
  unfolding after_service
  combined (reply, s) rest passes w h k f =
      let clear = no_error reply.error k in ground (arith, h, clear, f h clear)
  combined (reply, s) rest fails w h k f = ground arith
  combined (reply, s) rest refuses w h k f = ground arith

  -- Check allows a request exactly if the budget of the service type admits it and the budget of
  -- the policy rule does not refuse it, both as the call finds them; it reports an error exactly
  -- where the service's own check fails, and then it does not allow.
  pub allowed-check :
      (l : Limiter) (r : Request) (service : String) (s : Store)
      → let i = resolve_identity l r service in
        let first = service_verdict (l.limits service) service i s in
        let answer = check redis parse_duration l up r service s in
        (answer.0.result.allowed ≡ grants first (policy_verdict r.policy service i s))
        × (is_error answer.0.error ≡ is_failure first)
  unfolding check
  allowed-check l r service s =
      let i = resolve_identity l r service in
      let (granted, failed, kept) = service-verdict (l.limits service) service i s in
      let first = service_checked redis parse_duration up (l.limits service) service i s in
      combined first (policy_checked redis parse_duration up r.policy service i)
        (service_verdict (l.limits service) service i s) (policy_verdict r.policy service i s)
        granted failed
        λ a e.
          rw (← policy_frame r.policy service i s first.1 kept)
            (policy-verdict r.policy service i first.0 first.1 a e)
