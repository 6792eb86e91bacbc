-- ===== src/RateLimit/Examples.antt =====
-- ratelimit.go: runs of the limiter on a server in memory, and the theorems at concrete requests.
use gatew_ai.Base.{
  min, ◌≡◌, ◌≢◌, refl, Bool, true, false, Option, none, some, String, str_eq, if◌then◌else◌, arith,
  List, [], ◌∷◌, update,
}
use gatew_ai.Base.Int.{ℤ, pos, ◌+ℤ◌}
use gatew_ai.Redis.Memory.{memory, empty}
use gatew_ai.RateLimit.{
  RateLimitConfig, no_limits, Limiter, new_limiter, set_pool_limits, Request, ceil_seconds,
}
use gatew_ai.RateLimit.Window.{
  window_script, check_fixed_window, run_window, window_result, pool_key,
}
use gatew_ai.RateLimit.Window.Budget
use gatew_ai.RateLimit.Window.Budget.{admitted, Applies, admitted-within_window}
use gatew_ai.RateLimit.Window.Pools.{passes, verdict}

-- Every period reads as a minute, but "bad".
abbrev pub minute : String → Option ℤ
minute text = if str_eq text "bad" then none else some (pos 60_000_000_000)

abbrev pub reachable : String → Bool
reachable key = true

-- Two calls and ten tokens a minute.
abbrev pub config : RateLimitConfig
config = record no_limits { rate = pos 2; period = "1m"; token_rate = pos 10; token_period = "1m" }

abbrev entries : String → Option RateLimitConfig
entries = update "*" (some config) (update "premium" (some config) (λ _. none))

abbrev pub limiter : Limiter
limiter =
    set_pool_limits (update "gpu" (some config) (λ _. none)) (λ _. none)
      (new_limiter (update "audio" (some entries) (λ _. none)) (λ _. none) "X-Consumer"
        "X-User-Type")

abbrev headers : String → String → String
headers user_type = update "X-Consumer" "ada" (update "X-User-Type" user_type (λ _. ""))

abbrev pub premium : Request
premium = record { header = headers "premium"; policy = none }

window-Applies : Applies memory minute reachable "rl:ada:audio:*" config 2 60
unfolding ceil_seconds
window-Applies = record {
  reaches = refl;
  period = pos 60_000_000_000;
  parsed = refl;
  window = refl;
  rate = refl;
  some_rate = omega arith;
  some_window = omega arith;
}

abbrev calls : List Budget.Action
calls = Budget.attempt ∷ Budget.waits 5 ∷ Budget.attempt ∷ Budget.attempt ∷ []

two_of_three : admitted memory minute reachable "k" config calls empty ≡ 2
unfolding admitted check_fixed_window run_window window_result window_script ceil_seconds ◌+ℤ◌
two_of_three = refl

admitted-within_window_example :
    admitted memory minute reachable "rl:ada:audio:*" config calls empty
    ≡ min (Budget.attempts calls) 2
admitted-within_window_example =
    admitted-within_window memory minute reachable "rl:ada:audio:*" config 2 60 window-Applies calls
      empty (omega arith) refl

abbrev unreachable : String → Bool
unreachable key = false

pool_fails :
    verdict memory minute unreachable (pool_key "gpu") (limiter.pool_limits "gpu") empty ≢ passes
unfolding verdict
pool_fails = ground arith
