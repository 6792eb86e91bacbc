-- ===== src/RateLimit/Window/Reset.antt =====
-- ratelimit.go: a fixed window ends, so that the calls admitted in a long run are bounded by its
-- duration.
use gatew_ai.Base.{
  ℕ, suc, ◌+◌, ◌-◌, ◌*◌, ◌/◌, ◌≤◌, ◌<◌, ◌≡◌, Option, none, Bool, String, arith, List, [], ◌∷◌,
  dec_lt,
}
use gatew_ai.Base.Int.{ℤ, pos}
use gatew_ai.Redis.{Redis}
use gatew_ai.RateLimit.{RateLimitConfig}
use gatew_ai.RateLimit.Window.{window_script}
use gatew_ai.RateLimit.Window.Budget.{
  Action, attempt, waits, duration, IsOpen, admitted, Applies, checked, allowed_none, allowed_open,
  script_opens, script-IsOpen, elapse-IsOpen, elapse-none, elapse_absent,
}

-- A window more has begun when a whole one has passed.
suc-div : (t x w : ℕ) → 0 < w → t + w ≤ x → suc (t / w) ≤ x / w
suc-div t x w p h = grind arith

budget_grows : (r q x : ℕ) → suc q ≤ x → r * q + r ≤ r * x
budget_grows r q x h = grind arith

div_mono : (x y w : ℕ) → 0 < w → x ≤ y → x / w ≤ y / w
div_mono x y w p h = grind arith

budget_mono : (r x y w : ℕ) → 0 < w → x ≤ y → r * (x / w) ≤ r * (y / w)
budget_mono r x y w p h = grind (arith, div_mono x y w p h)

module _ (redis : Redis) (parse_duration : String → Option ℤ) (up : String → Bool) (key : String)
    (cfg : RateLimitConfig) (r w : ℕ) (a : Applies redis parse_duration up key cfg r w) where
  open redis use {Store, get_int, elapse}

  mutual
    unfolding admitted

    bound_open :
        (plan : List Action) (s : Store) (c left : ℕ)
        → left ≤ w
        → IsOpen redis key s c left
        → admitted redis parse_duration up key cfg plan s
          ≤ (r - suc c) + r * ((duration plan + (w - left)) / w)
    bound_open [] s c left l o = omega arith
    bound_open (attempt ∷ plan) s c left l o =
        rw (checked redis parse_duration up key cfg r w a s) (
          rw (allowed_open redis parse_duration up key cfg r w a s c left o) (
            ground (
              arith,
              bound_open plan (window_script redis key (pos w) s) (suc c) left l
                  (script-IsOpen redis key s w c left o),
            )))
    bound_open (waits n ∷ plan) s c left l o = elim (dec_lt n left) [
      | yes h ↦ ground (
        arith,
        bound_open plan (elapse n s) c (left - n) (omega arith)
            (elapse-IsOpen redis key s c left n h o),
      )
      | no h ↦ omega (
        arith,
        bound_none plan (elapse n s) (elapse-none redis key s c left n (omega arith) o),
        budget_grows r (duration plan / w) ((n + duration plan + (w - left)) / w) (
            suc-div (duration plan) (n + duration plan + (w - left)) w a.some_window (omega arith)),
      )
    ]

    bound_none :
        (plan : List Action) (s : Store)
        → get_int s key ≡ none
        → admitted redis parse_duration up key cfg plan s ≤ r * (duration plan / w) + r
    bound_none [] s h = omega arith
    bound_none (attempt ∷ plan) s h = rw (checked redis parse_duration up key cfg r w a s) (
        rw (allowed_none redis parse_duration up key cfg r w a s h) (
          ground (
            arith,
            a.some_rate,
            bound_open plan (window_script redis key (pos w) s) 0 w (omega arith)
                (script_opens redis key s w a.some_window h),
          )))
    bound_none (waits n ∷ plan) s h = omega (
      arith,
      bound_none plan (elapse n s) (elapse_absent redis key s n h),
      budget_mono r (duration plan) (n + duration plan) w a.some_window (omega arith),
    )

  -- However the calls are spread over time, `t` seconds admit at most `t / w + 1` times the rate.
  pub admitted-long_run :
      (plan : List Action) (s : Store)
      → get_int s key ≡ none
      → admitted redis parse_duration up key cfg plan s ≤ r * (duration plan / w) + r
  admitted-long_run plan s h = bound_none plan s h
