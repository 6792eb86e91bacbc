-- ===== src/RateLimit/Window/Budget.antt =====
-- ratelimit.go: what a fixed window admits, over every order of calls and passing time.
use gatew_ai.Base.{
  ℕ, suc, ◌+◌, ◌-◌, ◌≤◌, ◌<◌, min, ◌≡◌, Bool, true, Option, none, some, String, eq_refl, leb, arith,
  List, [], ◌∷◌, if◌then◌else◌, ◌∙◌,
}
use gatew_ai.Base.Int.{ℤ, pos, ◌+ℤ◌}
use gatew_ai.Redis.{Redis, or_zero, ttl_incremented}
use gatew_ai.RateLimit.{RateLimitConfig, ceil_seconds}
use gatew_ai.RateLimit.Window.{window_result, window_script, run_window, check_fixed_window}

-- A call of the limiter on the key, or seconds that pass.
pub data Action : Type 0 where
  attempt : Action
  waits : ℕ → Action

abbrev pub attempts : List Action → ℕ
attempts [] = 0
attempts (attempt ∷ plan) = suc (attempts plan)
attempts (waits n ∷ plan) = attempts plan

abbrev pub duration : List Action → ℕ
duration [] = 0
duration (attempt ∷ plan) = duration plan
duration (waits n ∷ plan) = n + duration plan

module _ (redis : Redis) (key : String) where
  open redis use {
    Store, get_int, ttl, incr_by, expire, elapse, get-incr_by, ttl-incr_by, get-expire, ttl-expire,
    get-elapse, ttl-elapse,
  }

  -- An open window with `c + 1` calls counted and `left` seconds to go.
  pub record IsOpen (s : Store) (c left : ℕ) : Type 0 where
    pub counted : get_int s key ≡ some (pos (suc c))
    pub ends : ttl s key ≡ pos left

  -- INCR on the key itself.
  get-incr :
      (s : Store) → get_int (incr_by key (pos 1) s) key ≡ some (or_zero (get_int s key) +ℤ pos 1)
  get-incr s = get-incr_by key (pos 1) s key ∙ ground (arith, eq_refl key)

  ttl-incr :
      (s : Store) → ttl (incr_by key (pos 1) s) key ≡ ttl_incremented (get_int s key) (ttl s key)
  ttl-incr s = ttl-incr_by key (pos 1) s key ∙ ground (arith, eq_refl key)

  pub script_opens :
      (s : Store) (w : ℕ)
      → 0 < w
      → get_int s key ≡ none
      → IsOpen (window_script redis key (pos w) s) 0 w
  unfolding window_script ◌+ℤ◌
  script_opens s w p h =
      let counted = incr_by key (pos 1) s in
      record {
        counted = ground (arith, get-incr s, get-expire key (pos w) counted key, eq_refl key);
        ends = ground (arith, get-incr s, ttl-expire key (pos w) counted key, eq_refl key);
      }

  pub script-IsOpen :
      (s : Store) (w c left : ℕ)
      → IsOpen s c left
      → IsOpen (window_script redis key (pos w) s) (suc c) left
  unfolding window_script ◌+ℤ◌
  script-IsOpen s w c left o = record {
    counted = ground (arith, get-incr s);
    ends = ground (arith, get-incr s, ttl-incr s);
  }

  pub elapse-IsOpen :
      (s : Store) (c left n : ℕ) → n < left → IsOpen s c left → IsOpen (elapse n s) c (left - n)
  elapse-IsOpen s c left n h o = record {
    counted = ground (arith, get-elapse n s key);
    ends = ground (arith, ttl-elapse n s key);
  }

  pub elapse-none :
      (s : Store) (c left n : ℕ) → left ≤ n → IsOpen s c left → get_int (elapse n s) key ≡ none
  elapse-none s c left n h o = ground (arith, get-elapse n s key)

  pub elapse_absent : (s : Store) (n : ℕ) → get_int s key ≡ none → get_int (elapse n s) key ≡ none
  elapse_absent s n h = ground (arith, get-elapse n s key, ttl s key)

module _ (redis : Redis) (parse_duration : String → Option ℤ) (up : String → Bool) (key : String)
    (cfg : RateLimitConfig) where
  open redis use {Store, get_int, elapse}

  -- How many calls of a plan the limiter allows.
  unfoldable pub admitted : List Action → Store → ℕ
  admitted [] s = 0
  admitted (attempt ∷ plan) s =
      let (reply, after) = check_fixed_window redis parse_duration up key cfg s in
      let rest = admitted plan after in if reply.result.allowed then suc rest else rest
  admitted (waits n ∷ plan) s = admitted plan (elapse n s)

  -- The scripts reach the server, and the entry sets `r` calls for `w` seconds.
  pub record Applies (r w : ℕ) : Type 0 where
    pub reaches : up key ≡ true
    pub period : ℤ
    pub parsed : parse_duration cfg.period ≡ some period
    pub window : ceil_seconds period ≡ pos w
    pub rate : cfg.rate ≡ pos r
    pub some_rate : 0 < r
    pub some_window : 0 < w

  module _ (r w : ℕ) (a : Applies r w) where
    pub checked :
        (s : Store)
        → check_fixed_window redis parse_duration up key cfg s ≡ (
          record { result = (run_window redis key (pos r) (pos w) s).0; error = none },
          window_script redis key (pos w) s,
        )
    unfolding check_fixed_window run_window
    checked s = ground (arith, a.reaches, a.parsed, a.window, a.rate, a.some_rate)

    pub allowed_none :
        (s : Store)
        → get_int s key ≡ none
        → (run_window redis key (pos r) (pos w) s).0.allowed ≡ true
    unfolding run_window window_result ◌+ℤ◌
    allowed_none s h = ground (arith, get-incr redis key s, a.some_rate)

    pub allowed_open :
        (s : Store) (c left : ℕ)
        → IsOpen redis key s c left
        → (run_window redis key (pos r) (pos w) s).0.allowed ≡ leb (suc (suc c)) r
    unfolding run_window window_result ◌+ℤ◌
    allowed_open s c left o = ground (arith, get-incr redis key s, o.counted)

    -- Within an open window the calls are admitted up to the rate.
    admitted_open :
        (plan : List Action) (s : Store) (c left : ℕ)
        → duration plan < left
        → IsOpen redis key s c left
        → admitted plan s ≡ min (attempts plan) (r - suc c)
    unfolding admitted
    admitted_open [] s c left d o = omega arith
    admitted_open (attempt ∷ plan) s c left d o = rw (checked s) (
        rw (allowed_open s c left o) (
          ground (
            arith,
            admitted_open plan (window_script redis key (pos w) s) (suc c) left d
                (script-IsOpen redis key s w c left o),
          )))
    admitted_open (waits n ∷ plan) s c left d o =
        admitted_open plan (elapse n s) c (left - n) (omega arith)
          (elapse-IsOpen redis key s c left n (omega arith) o)

    -- Where the script reaches the server and the period and the rate of the rule are in force: from no window
    -- at all, the calls of a plan that is shorter than the window are admitted up to
    -- the rate, and not beyond: exactly the lesser of the two numbers.
    pub admitted-within_window :
        (plan : List Action) (s : Store)
        → duration plan < w
        → get_int s key ≡ none
        → admitted plan s ≡ min (attempts plan) r
    unfolding admitted
    admitted-within_window [] s d h = omega arith
    admitted-within_window (attempt ∷ plan) s d h =
        let opened = script_opens redis key s w a.some_window h in
        rw (checked s) (
          rw (allowed_none s h) (
            omega (
              arith,
              a.some_rate,
              admitted_open plan (window_script redis key (pos w) s) 0 w d opened,
            )))
    admitted-within_window (waits n ∷ plan) s d h =
        admitted-within_window plan (elapse n s) (omega arith) (elapse_absent redis key s n h)
