-- ===== src/RateLimit/Window.antt =====
-- ratelimit.go: the fixed-window script, checkFixedWindow and CheckBackendPool. `up key` says whether
-- the script on that key reaches the server during the call; a script that fails changes nothing.
pub mod Budget
pub mod Reset
pub mod Pools
use gatew_ai.Base.{
  ℕ, ◌≡◌, Bool, true, false, ◌&&◌, Option, none, some, String, append, update, if◌then◌else◌,
}
use gatew_ai.Base.Int.{ℤ, pos, leb_ℤ, ltb_ℤ, eqb_ℤ}
use gatew_ai.Redis.{Redis, or_zero}
use gatew_ai.RateLimit.{
  RateLimitConfig, CheckResult, allowed_only, no_result, Error, bad_period, script_failed, Reply,
  ok, Limiter, Limits, ceil_seconds, seconds, remaining_of, key₂,
}

-- `if ttlSecs < 0 { ttlSecs = windowSec }`, and the result of a window with this count.
unfoldable pub window_result : ℤ → ℤ → ℤ → ℤ → CheckResult
window_result rate window count ttl = record {
  allowed = leb_ℤ count rate;
  limit = rate;
  remaining = remaining_of rate count;
  reset_after = seconds (if ltb_ℤ ttl (pos 0) then window else ttl);
}

abbrev pub member_limit : Option (String → Option RateLimitConfig) → String → Option RateLimitConfig
member_limit none url = none
member_limit (some m) url = m url

abbrev pub pool_key : String → String
pool_key pool = append "poolrl:" pool

abbrev pub member_key : String → String → String
member_key pool url = key₂ "poolrl:" pool url

-- An error fails open.
opened : Reply → CheckResult
opened reply = elim reply.error [ none ↦ reply.result | some _ ↦ allowed_only ]

module _ (redis : Redis) where
  open redis use {Store, get_int, ttl, incr_by, expire}

  window_started : String → ℤ → Store → Store
  window_started key window s =
      if eqb_ℤ (or_zero (get_int s key)) (pos 1) then expire key window s else s

  -- The store after the script; its reply is read back from there.
  unfoldable pub window_script : String → ℤ → Store → Store
  unfolding window_started
  window_script key window s = window_started key window (incr_by key (pos 1) s)

  unfoldable pub run_window : String → ℤ → ℤ → Store → CheckResult × Store
  run_window key rate window s =
      let counted = incr_by key (pos 1) s in
      let after = window_script key window s in
      (window_result rate window (or_zero (get_int counted key)) (ttl after key), after)

  windowed : Bool → String → ℤ → ℤ → Store → Reply × Store
  windowed false key rate window s = (record { result = no_result; error = some script_failed }, s)
  windowed true key rate window s =
      let (result, after) = run_window key rate window s in (ok result, after)

  module _ (parse_duration : String → Option ℤ) where
    parsed_window : Option ℤ → Bool → String → RateLimitConfig → Store → Reply × Store
    unfolding windowed
    parsed_window none up key cfg s =
        (record { result = no_result; error = some (bad_period cfg.period) }, s)
    parsed_window (some period) up key cfg s = windowed up key cfg.rate (ceil_seconds period) s

    unfoldable pub check_fixed_window :
        (String → Bool) → String → RateLimitConfig → Store → Reply × Store
    unfolding parsed_window
    check_fixed_window up key cfg s =
        if eqb_ℤ cfg.rate (pos 0)
        then (ok allowed_only, s)
        else parsed_window (parse_duration cfg.period) (up key) key cfg s

    -- The member's own budget, if it is configured with a positive rate.
    member_checked : (String → Bool) → String → Option RateLimitConfig → Store → CheckResult × Store
    unfolding opened
    member_checked up key none s = (allowed_only, s)
    member_checked up key (some cfg) s =
        if ltb_ℤ (pos 0) cfg.rate
        then (let (reply, after) = check_fixed_window up key cfg s in (opened reply, after))
        else (allowed_only, s)

    -- After the pool-wide check: an error returns at once, and so does a rejection.
    pool_passed : Reply → Store → (Store → CheckResult × Store) → CheckResult × Store
    pool_passed reply s rest = elim reply.error [
      | some _ ↦ (allowed_only, s)
      | none ↦ if reply.result.allowed then rest s else (reply.result, s)
    ]

    pool_checked :
        (String → Bool)
        → String
        → Option RateLimitConfig
        → (Store → CheckResult × Store)
        → Store
        → CheckResult × Store
    unfolding pool_passed
    pool_checked up key none rest s = rest s
    pool_checked up key (some cfg) rest s =
        if ltb_ℤ (pos 0) cfg.rate
        then (let (reply, after) = check_fixed_window up key cfg s in pool_passed reply after rest)
        else rest s

    unfoldable pub check_backend_pool :
        Limiter → (String → Bool) → String → String → Store → CheckResult × Store
    unfolding member_checked pool_checked
    check_backend_pool l up pool url s =
        pool_checked up (pool_key pool) (l.pool_limits pool)
          (member_checked up (member_key pool url) (member_limit (l.pool_member_limits pool) url)) s
