-- ===== src/RateLimit/Requests.antt =====
-- ratelimit.go: Check, the request rate of a service type and of the matched policy rule.
pub mod Verdicts
pub mod Keys
use gatew_ai.Base.{Bool, true, false, not, ◌||◌, Option, none, some, String, str_eq, if◌then◌else◌}
use gatew_ai.Base.Int.{ℤ, pos, leb_ℤ, ltb_ℤ, eqb_ℤ}
use gatew_ai.Redis.{Redis, or_zero}
use gatew_ai.RateLimit.{
  RateLimitConfig, CheckResult, allowed_only, no_result, bad_period, script_failed, Reply, ok,
  Limiter, Request, Identity, resolve_identity, ceil_seconds, seconds, key₂, key₃,
}
use gatew_ai.RateLimit.Window.{run_window}

abbrev pub service_key : String → Identity → String
service_key service i = key₃ "rl:" i.consumer service i.user_type

abbrev pub policy_key : String → Identity → String
policy_key service i = key₂ "rlp:" i.consumer service

module _ (redis : Redis) (parse_duration : String → Option ℤ) where
  open redis use {Store}

  service_counted : Bool → String → RateLimitConfig → ℤ → Store → Reply × Store
  service_counted false key cfg window s =
      (record { result = no_result; error = some script_failed }, s)
  service_counted true key cfg window s =
      let (result, after) = run_window redis key cfg.rate window s in (ok result, after)

  service_windowed : Option ℤ → Bool → String → RateLimitConfig → Store → Reply × Store
  unfolding service_counted
  service_windowed none up key cfg s =
      (record { result = no_result; error = some (bad_period cfg.period) }, s)
  service_windowed (some period) up key cfg s = service_counted up key cfg (ceil_seconds period) s

  -- A service type with no entry, and an entry with rate 0, allow without touching the server.
  service_checked :
      (String → Bool)
      → Option (String → Option RateLimitConfig)
      → String
      → Identity
      → Store
      → Reply × Store
  unfolding service_windowed
  service_checked up none service i s = (ok allowed_only, s)
  service_checked up (some _) service i s =
      let key = service_key service i in
      if eqb_ℤ i.config.rate (pos 0)
      then (ok allowed_only, s)
      else service_windowed (parse_duration i.config.period) (up key) key i.config s

  refused : RateLimitConfig → CheckResult → CheckResult
  refused cfg r = record {
    allowed = false;
    limit = cfg.rate;
    remaining = pos 0;
    reset_after = r.reset_after;
  }

  -- A script that fails leaves the service's result, and so does a bad period.
  policy_counted : Bool → String → RateLimitConfig → ℤ → Reply → Store → Reply × Store
  unfolding refused
  policy_counted false key cfg window reply s = (reply, s)
  policy_counted true key cfg window reply s =
      let (result, after) = run_window redis key cfg.rate window s in
      (if result.allowed then reply else ok (refused cfg result), after)

  policy_windowed : Option ℤ → Bool → String → RateLimitConfig → Reply → Store → Reply × Store
  unfolding policy_counted
  policy_windowed none up key cfg reply s = (reply, s)
  policy_windowed (some period) up key cfg reply s =
      policy_counted up key cfg (ceil_seconds period) reply s

  policy_checked :
      (String → Bool) → Option RateLimitConfig → String → Identity → Reply → Store → Reply × Store
  unfolding policy_windowed
  policy_checked up none service i reply s = (reply, s)
  policy_checked up (some cfg) service i reply s =
      let key = policy_key service i in
      if eqb_ℤ cfg.rate (pos 0) || str_eq i.consumer "anonymous"
      then (reply, s)
      else policy_windowed (parse_duration cfg.period) (up key) key cfg reply s

  -- An error of the service's check and its rejection are returned at once.
  unfoldable pub after_service : Reply × Store → (Reply → Store → Reply × Store) → Reply × Store
  after_service (reply, s) rest = elim reply.error [
    | some _ ↦ (reply, s)
    | none ↦ if not reply.result.allowed then (reply, s) else rest reply s
  ]

  unfoldable pub check : Limiter → (String → Bool) → Request → String → Store → Reply × Store
  unfolding service_checked policy_checked after_service
  check l up r service s =
      let i = resolve_identity l r service in
      after_service (service_checked up (l.limits service) service i s)
        (policy_checked up r.policy service i)
