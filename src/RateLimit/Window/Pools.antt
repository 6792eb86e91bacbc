-- ===== src/RateLimit/Window/Pools.antt =====
-- ratelimit.go: CheckBackendPool against the budgets of the pool and of its member.
use text.Mathlib.TextLemmas.{append-nil, append_cancel_left, cons-append, nil≢cons}
use gatew_ai.Base.{
  ◌≡◌, ◌≢◌, refl, ap, ◌∙◌, true, false, Option, none, some, Bool, String, append, eq_refl, ==-ne,
  arith, if◌then◌else◌, Option-cases, inl, inr,
}
use gatew_ai.Base.Int.{ℤ, pos, leb_ℤ, ltb_ℤ, ◌+ℤ◌}
use gatew_ai.Redis.{Redis, or_zero}
use gatew_ai.RateLimit.{RateLimitConfig, CheckResult, Limiter, ceil_seconds}
use gatew_ai.RateLimit.Window.{
  window_script, run_window, check_fixed_window, check_backend_pool, pool_key, member_key,
  member_limit, member_checked, pool_checked, window_result,
}

-- No text is followed by more of itself.
append-ne : (s : String) (t : String) → s ≢ append s (append ":" t)
append-ne s t e = nil≢cons (append_cancel_left s _ _ (append-nil s ∙ e) ∙ cons-append _ _ t)

pool_key-ne : (pool url : String) → pool_key pool ≢ member_key pool url
pool_key-ne pool url e = append-ne pool url (append_cancel_left "poolrl:" _ _ e)

-- What a scope says: nothing against the call, an error, or that its budget is used up.
pub data Verdict : Type 0 where
  passes fails refuses : Verdict

-- Both scopes must pass, and an error of the first lets the call through at once.
abbrev pub both : Verdict → Verdict → Bool
both refuses v = false
both fails v = true
both passes refuses = false
both passes v = true

module _ (redis : Redis) where
  open redis use {Store, get_int, incr_by, get-incr_by, get-expire}

  -- The script on one key leaves the others alone.
  pub get-window_script_ne :
      (key : String) (w : ℤ) (s : Store) (j : String)
      → key ≢ j
      → get_int (window_script redis key w s) j ≡ get_int s j
  unfolding window_script
  get-window_script_ne key w s j h = ground (
    arith,
    ==-ne key j h,
    get-incr_by key (pos 1) s j,
    get-expire key w (incr_by key (pos 1) s) j,
  )

  module _ (parse_duration : String → Option ℤ) (up : String → Bool) where
    reached : Bool → ℤ → ℤ → Verdict
    reached false rate count = fails
    reached true rate count = if leb_ℤ (count +ℤ pos 1) rate then passes else refuses

    parsed : Option ℤ → Bool → ℤ → ℤ → Verdict
    unfolding reached
    parsed none up rate count = fails
    parsed (some period) up rate count = reached up rate count

    -- The scope as it is described: a positive rate is a budget for the calls of a window.
    unfoldable pub verdict : String → Option RateLimitConfig → Store → Verdict
    unfolding parsed
    verdict key none s = passes
    verdict key (some cfg) s =
        if ltb_ℤ (pos 0) cfg.rate
        then parsed (parse_duration cfg.period) (up key) cfg.rate (or_zero (get_int s key))
        else passes

    get-incr :
        (key : String) (s : Store)
        → get_int (incr_by key (pos 1) s) key ≡ some (or_zero (get_int s key) +ℤ pos 1)
    get-incr key s = get-incr_by key (pos 1) s key ∙ ground (arith, eq_refl key)

    member-verdict :
        (key : String) (o : Option RateLimitConfig) (s : Store)
        → (member_checked redis parse_duration up key o s).0.allowed ≡ both passes (verdict key o s)
    unfolding member_checked check_fixed_window verdict run_window window_result
    member-verdict key none s = refl
    member-verdict key (some cfg) s = ground (arith, get-incr key s)

    pool-verdict :
        (key : String) (o : Option RateLimitConfig) (rest : Store → CheckResult × Store) (s : Store)
        (v : Verdict)
        → ((rest s).0.allowed ≡ both passes v)
        → ((w : ℤ) → (rest (window_script redis key w s)).0.allowed ≡ both passes v)
        → (pool_checked redis parse_duration up key o rest s).0.allowed ≡ both (verdict key o s) v
    unfolding pool_checked check_fixed_window verdict run_window window_result
    pool-verdict key none rest s v h k = h
    pool-verdict key (some cfg) rest s v h k = elim (Option-cases (parse_duration cfg.period)) [
      | inl e ↦ ground (arith, e)
      | inr (p, e) ↦ ground (arith, e, get-incr key s, k (ceil_seconds p))
    ]

    verdict_frame :
        (key : String) (o : Option RateLimitConfig) (s t : Store)
        → get_int t key ≡ get_int s key
        → verdict key o t ≡ verdict key o s
    unfolding verdict
    verdict_frame key none s t h = refl
    verdict_frame key (some cfg) s t h = rw h

    -- A call to a member of a pool is allowed exactly as the two scopes say in the store that the
    -- call finds: a used-up pool refuses, an error of the pool's check allows, and otherwise the
    -- member's own scope decides, where an error allows too.
    pub allowed-check_backend_pool :
        (l : Limiter) (pool url : String) (s : Store)
        → (check_backend_pool redis parse_duration l up pool url s).0.allowed
          ≡ both
              (verdict (pool_key pool) (l.pool_limits pool) s)
              (verdict (member_key pool url) (member_limit (l.pool_member_limits pool) url) s)
    unfolding check_backend_pool
    allowed-check_backend_pool l pool url s =
        let key = member_key pool url in
        let own = member_limit (l.pool_member_limits pool) url in
        pool-verdict (pool_key pool) (l.pool_limits pool)
          (member_checked redis parse_duration up key own) s (verdict key own s)
          (member-verdict key own s)
          λ w.
            member-verdict key own _
            ∙ ap (both passes) (
                verdict_frame key own s _
                  (get-window_script_ne (pool_key pool) w s key (pool_key-ne pool url)))

    pool-keeps :
        (key j : String) (o : Option RateLimitConfig) (rest : Store → CheckResult × Store)
        (s : Store)
        → key ≢ j
        → verdict key o s ≢ passes
        → get_int (pool_checked redis parse_duration up key o rest s).1 j ≡ get_int s j
    unfolding pool_checked check_fixed_window verdict run_window window_result
    pool-keeps key j none rest s h k = absurd (k refl)
    pool-keeps key j (some cfg) rest s h k = elim (Option-cases (parse_duration cfg.period)) [
      | inl e ↦ ground (arith, e)
      | inr (p, e) ↦
          ground (arith, e, get-incr key s, get-window_script_ne key (ceil_seconds p) s j h)
    ]

    -- A call that the pool-wide scope refuses, or whose check there fails, is not counted against
    -- the member.
    pub member_kept :
        (l : Limiter) (pool url : String) (s : Store)
        → verdict (pool_key pool) (l.pool_limits pool) s ≢ passes
        → get_int (check_backend_pool redis parse_duration l up pool url s).1 (member_key pool url)
          ≡ get_int s (member_key pool url)
    unfolding check_backend_pool
    member_kept l pool url s h =
        pool-keeps (pool_key pool) (member_key pool url) (l.pool_limits pool) _ s
          (pool_key-ne pool url) h

    window_keeps :
        (key : String) (cfg : RateLimitConfig) (s : Store) (j : String)
        → key ≢ j
        → get_int (check_fixed_window redis parse_duration up key cfg s).1 j ≡ get_int s j
    unfolding check_fixed_window run_window
    window_keeps key cfg s j h = elim (Option-cases (parse_duration cfg.period)) [
      | inl e ↦ ground (arith, e)
      | inr (p, e) ↦ ground (arith, e, get-window_script_ne key (ceil_seconds p) s j h)
    ]

    member_keeps :
        (key : String) (o : Option RateLimitConfig) (s : Store) (j : String)
        → key ≢ j
        → get_int (member_checked redis parse_duration up key o s).1 j ≡ get_int s j
    unfolding member_checked
    member_keeps key none s j h = refl
    member_keeps key (some cfg) s j h = ground (arith, window_keeps key cfg s j h)

    -- The check of a pool leaves the other keys alone.
    pub get-check_backend_pool_ne :
        (l : Limiter) (pool url : String) (s : Store) (j : String)
        → pool_key pool ≢ j
        → member_key pool url ≢ j
        → get_int (check_backend_pool redis parse_duration l up pool url s).1 j ≡ get_int s j
    unfolding check_backend_pool pool_checked
    get-check_backend_pool_ne l pool url s j h k = elim (Option-cases (l.pool_limits pool)) [
      | inl e ↦ ground (
        arith,
        e,
        member_keeps (member_key pool url) (member_limit (l.pool_member_limits pool) url) s j k,
      )
      | inr (cfg, e) ↦
          let after = (check_fixed_window redis parse_duration up (pool_key pool) cfg s).1 in
          ground (
            arith,
            e,
            window_keeps (pool_key pool) cfg s j h,
            member_keeps (member_key pool url) (member_limit (l.pool_member_limits pool) url) s j k,
            member_keeps (member_key pool url) (member_limit (l.pool_member_limits pool) url) after
                j k,
          )
    ]
