-- ===== src/RateLimit/Requests/Keys.antt =====
-- ratelimit.go: the counters that Check leaves alone.
use gatew_ai.Base.{
  ◌≡◌, ◌≢◌, refl, Bool, true, false, Option, none, some, String, arith, Option-cases, inl, inr,
}
use gatew_ai.Base.Int.{ℤ}
use gatew_ai.Redis.{Redis}
use gatew_ai.RateLimit.{
  RateLimitConfig, Reply, Limiter, Request, Identity, resolve_identity, ceil_seconds,
}
use gatew_ai.RateLimit.Window.{run_window}
use gatew_ai.RateLimit.Window.Pools.{get-window_script_ne}
use gatew_ai.RateLimit.Requests.{
  service_key, policy_key, service_counted, service_windowed, service_checked, policy_counted,
  policy_windowed, policy_checked, after_service, check,
}

module _ (redis : Redis) (parse_duration : String → Option ℤ) (up : String → Bool)
    (j : String) where
  open redis use {Store, get_int}

  counted-keeps :
      (b : Bool) (key : String) (cfg : RateLimitConfig) (window : ℤ) (s : Store)
      → key ≢ j
      → get_int (service_counted redis parse_duration b key cfg window s).1 j ≡ get_int s j
  unfolding service_counted run_window
  counted-keeps false key cfg window s ne = refl
  counted-keeps true key cfg window s ne = get-window_script_ne redis key window s j ne

  service-keeps :
      (l : Limiter) (service : String) (i : Identity) (s : Store)
      → service_key service i ≢ j
      → get_int (service_checked redis parse_duration up (l.limits service) service i s).1 j
        ≡ get_int s j
  unfolding service_checked service_windowed
  service-keeps l service i s ne =
      let key = service_key service i in
      elim (Option-cases (l.limits service)) [
        | inl e ↦ ground (arith, e)
        | inr (m, e) ↦ elim (Option-cases (parse_duration i.config.period)) [
          | inl f ↦ ground (arith, e, f)
          | inr (p, f) ↦
              ground (arith, e, f, counted-keeps (up key) key i.config (ceil_seconds p) s ne)
        ]
      ]

  policy_counted-keeps :
      (b : Bool) (key : String) (cfg : RateLimitConfig) (window : ℤ) (reply : Reply) (s : Store)
      → key ≢ j
      → get_int (policy_counted redis parse_duration b key cfg window reply s).1 j ≡ get_int s j
  unfolding policy_counted run_window
  policy_counted-keeps false key cfg window reply s ne = refl
  policy_counted-keeps true key cfg window reply s ne = get-window_script_ne redis key window s j ne

  policy-keeps :
      (o : Option RateLimitConfig) (service : String) (i : Identity) (reply : Reply) (s : Store)
      → policy_key service i ≢ j
      → get_int (policy_checked redis parse_duration up o service i reply s).1 j ≡ get_int s j
  unfolding policy_checked policy_windowed
  policy-keeps none service i reply s ne = refl
  policy-keeps (some cfg) service i reply s ne =
      let key = policy_key service i in
      elim (Option-cases (parse_duration cfg.period)) [
        | inl f ↦ ground (arith, f)
        | inr (p, f) ↦
            ground (arith, f, policy_counted-keeps (up key) key cfg (ceil_seconds p) reply s ne)
      ]

  -- The check of a request leaves the other counters alone.
  pub get-check_ne :
      (l : Limiter) (r : Request) (service : String) (s : Store)
      → ((i : Identity) → service_key service i ≢ j)
      → ((i : Identity) → policy_key service i ≢ j)
      → get_int (check redis parse_duration l up r service s).1 j ≡ get_int s j
  unfolding check after_service
  get-check_ne l r service s own policy =
      let i = resolve_identity l r service in
      let (reply, after) = service_checked redis parse_duration up (l.limits service) service i s in
      ground (
        arith,
        service-keeps l service i s (own i),
        policy-keeps r.policy service i reply after (policy i),
      )
