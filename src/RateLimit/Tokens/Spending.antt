-- ===== src/RateLimit/Tokens/Spending.antt =====
-- ratelimit.go: what CheckTokens answers after AddTokens, within a window.
use gatew_ai.Base.{
  ℕ, zero, suc, ◌+◌, ◌-◌, ◌<◌, ◌≡◌, refl, Bool, true, Option, none, some, String, eq_refl, ltb,
  arith, List, [], ◌∷◌, ◌∙◌, ap,
}
use gatew_ai.Base.Int.{ℤ, pos, ltb_ℤ, ◌+ℤ◌, ◌-ℤ◌}
use gatew_ai.Redis.{Redis, or_zero, ttl_incremented}
use gatew_ai.RateLimit.{Limiter, Request, Identity, resolve_identity, whole_seconds, remaining_of}
use gatew_ai.RateLimit.Tokens.{token_key, token_add_script, token_result, add_tokens, check_tokens}

-- A debit of tokens, or seconds that pass.
pub data Action : Type 0 where
  spends : ℕ → Action
  waits : ℕ → Action

abbrev pub spent : List Action → ℕ
spent [] = 0
spent (spends n ∷ plan) = n + spent plan
spent (waits n ∷ plan) = spent plan

abbrev pub duration : List Action → ℕ
duration [] = 0
duration (spends n ∷ plan) = duration plan
duration (waits n ∷ plan) = n + duration plan

module _ (redis : Redis) (key : String) where
  open redis use {
    Store, get_int, ttl, incr_by, expire, elapse, get-incr_by, ttl-incr_by, get-expire, ttl-expire,
    get-elapse, ttl-elapse,
  }

  -- A window with `c + 1` tokens counted and `left` seconds to go.
  pub record IsOpen (s : Store) (c left : ℕ) : Type 0 where
    pub counted : get_int s key ≡ some (pos (suc c))
    pub ends : ttl s key ≡ pos left

  get-incr :
      (d : ℤ) (s : Store) → get_int (incr_by key d s) key ≡ some (or_zero (get_int s key) +ℤ d)
  get-incr d s = get-incr_by key d s key ∙ ground (arith, eq_refl key)

  ttl-incr :
      (d : ℤ) (s : Store) → ttl (incr_by key d s) key ≡ ttl_incremented (get_int s key) (ttl s key)
  ttl-incr d s = ttl-incr_by key d s key ∙ ground (arith, eq_refl key)

  pub add_opens :
      (s : Store) (w n : ℕ)
      → 0 < w
      → get_int s key ≡ none
      → IsOpen (token_add_script redis key (pos w) (pos (suc n)) s) n w
  unfolding token_add_script ◌+ℤ◌
  add_opens s w n p h =
      let counted = incr_by key (pos (suc n)) s in
      record {
        counted =
            ground
              (arith, get-incr (pos (suc n)) s, get-expire key (pos w) counted key, eq_refl key);
        ends =
            ground
              (arith, get-incr (pos (suc n)) s, ttl-expire key (pos w) counted key, eq_refl key);
      }

  pub add-IsOpen :
      (s : Store) (w n c left : ℕ)
      → IsOpen s c left
      → IsOpen (token_add_script redis key (pos w) (pos (suc n)) s) (suc (c + n)) left
  unfolding token_add_script ◌+ℤ◌
  add-IsOpen s w n c left o = record {
    counted = ground (arith, get-incr (pos (suc n)) s);
    ends = ground (arith, get-incr (pos (suc n)) s, ttl-incr (pos (suc n)) s);
  }

  pub elapse-IsOpen :
      (s : Store) (c left n : ℕ) → n < left → IsOpen s c left → IsOpen (elapse n s) c (left - n)
  elapse-IsOpen s c left n h o = record {
    counted = ground (arith, get-elapse n s key);
    ends = ground (arith, ttl-elapse n s key);
  }

  pub elapse-none : (s : Store) (n : ℕ) → get_int s key ≡ none → get_int (elapse n s) key ≡ none
  elapse-none s n h = ground (arith, get-elapse n s key, ttl s key)

remaining_of_pos : (rate count : ℕ) → remaining_of (pos rate) (pos count) ≡ pos (rate - count)
unfolding remaining_of ◌-ℤ◌
remaining_of_pos rate count = ground arith

module _ (redis : Redis) (parse_duration : String → Option ℤ) (up : String → Bool) (l : Limiter)
    (r : Request) (service : String) where
  open redis use {Store, get_int, ttl, elapse}

  pub run : List Action → Store → Store
  run [] s = s
  run (spends n ∷ plan) s = run plan (add_tokens redis parse_duration l up r service (pos n) s).1
  run (waits n ∷ plan) s = run plan (elapse n s)

  abbrev identity : Identity
  identity = resolve_identity l r service

  abbrev pub key_of : String
  key_of = token_key identity.consumer service identity.user_type

  -- The scripts reach the server, the entry sets `rate` tokens for `w` seconds, and no policy rule
  -- sets a budget of its own.
  pub record Applies (rate w : ℕ) : Type 0 where
    pub reaches : up key_of ≡ true
    pub period : ℤ
    pub parsed : parse_duration identity.config.token_period ≡ some period
    pub window : whole_seconds period ≡ pos w
    pub budget : identity.config.token_rate ≡ pos rate
    pub no_policy : r.policy ≡ none
    pub some_rate : 0 < rate
    pub some_window : 0 < w

  module _ (rate w : ℕ) (a : Applies rate w) where
    debit :
        (n : ℕ) (s : Store)
        → (add_tokens redis parse_duration l up r service (pos (suc n)) s).1
          ≡ token_add_script redis key_of (pos w) (pos (suc n)) s
    unfolding add_tokens
    debit n s = ground (arith, a.reaches, a.parsed, a.window, a.budget, a.no_policy, a.some_rate)

    no_debit : (s : Store) → (add_tokens redis parse_duration l up r service (pos 0) s).1 ≡ s
    unfolding add_tokens
    no_debit s = refl

    answer :
        (s : Store) (c : ℤ)
        → or_zero (get_int s key_of) ≡ c
        → let reply = check_tokens redis parse_duration l up r service s in
          (reply.result.allowed ≡ ltb_ℤ c (pos rate))
          × (reply.result.remaining ≡ remaining_of (pos rate) c)
    unfolding check_tokens token_result
    answer s c h = ground (arith, a.reaches, a.parsed, a.budget, a.no_policy, a.some_rate)

    count_open :
        (plan : List Action) (s : Store) (c left : ℕ)
        → duration plan < left
        → IsOpen redis key_of s c left
        → or_zero (get_int (run plan s) key_of) ≡ pos (suc c + spent plan)
    unfolding run
    count_open [] s c left d o = ground (arith, o.counted)
    count_open (spends zero ∷ plan) s c left d o =
        rw (no_debit s) (count_open plan s c left d o ∙ ap pos (omega arith))
    count_open (spends (suc n) ∷ plan) s c left d o = rw (debit n s) (
        count_open plan _ (suc (c + n)) left d (add-IsOpen redis key_of s w n c left o)
        ∙ ap pos (omega arith))
    count_open (waits n ∷ plan) s c left d o =
        count_open plan (elapse n s) c (left - n) (omega arith)
          (elapse-IsOpen redis key_of s c left n (omega arith) o)

    count_none :
        (plan : List Action) (s : Store)
        → duration plan < w
        → get_int s key_of ≡ none
        → or_zero (get_int (run plan s) key_of) ≡ pos (spent plan)
    unfolding run
    count_none [] s d h = rw h
    count_none (spends zero ∷ plan) s d h =
        rw (no_debit s) (count_none plan s d h ∙ ap pos (omega arith))
    count_none (spends (suc n) ∷ plan) s d h = rw (debit n s) (
        count_open plan _ n w d (add_opens redis key_of s w n a.some_window h)
        ∙ ap pos (omega arith))
    count_none (waits n ∷ plan) s d h =
        count_none plan (elapse n s) (omega arith) (elapse-none redis key_of s n h)

    -- From no window, and while less time passes than a window lasts, the next request is allowed
    -- exactly if fewer tokens than the budget have been spent, and it is told how many are left.
    pub check_tokens-spent :
        (plan : List Action) (s : Store)
        → duration plan < w
        → get_int s key_of ≡ none
        → let reply = check_tokens redis parse_duration l up r service (run plan s) in
          (reply.result.allowed ≡ ltb (spent plan) rate)
          × (reply.result.remaining ≡ pos (rate - spent plan))
    check_tokens-spent plan s d h =
        let (granted, left) = answer (run plan s) (pos (spent plan)) (count_none plan s d h) in
        (granted ∙ ground arith, left ∙ remaining_of_pos rate (spent plan))
