-- ===== src/RateLimit/Tokens/Completion.antt =====
-- ratelimit.go, with handler/jobs.go and handler/relaycomplete.go: the debit that the completion of
-- an async job makes, beside the budget that the next request is checked against.
use text.Mathlib.TextLemmas.{append_cancel_left}
use gatew_ai.Base.{
  ◌≡◌, ◌≢◌, not, Option, none, some, Bool, String, str_eq, eq_iff, ==-ne, arith, if◌then◌else◌,
  Option-cases, inl, inr,
}
use gatew_ai.Base.Int.{ℤ, pos, ◌<ℤ◌}
use gatew_ai.Redis.{Redis}
use gatew_ai.RateLimit.{
  RateLimitConfig, Limiter, Request, consumer_of, resolve_identity, whole_seconds,
}
use gatew_ai.RateLimit.Tokens.{
  token_key, token_add_script, debited, entry_of, add_tokens, add_tokens_for, check_tokens,
}

-- The user type that the handler of a submitted job keeps in the job's record.
unfoldable pub submitted_user_type : Limiter → Request → String
submitted_user_type l r =
    if not (str_eq l.user_type_header "") then r.header l.user_type_header else ""

token_key-ne :
    (consumer service a b : String)
    → a ≢ b
    → token_key consumer service a ≢ token_key consumer service b
token_key-ne consumer service a b h e = h (
    append_cancel_left ":" _ _ (
      append_cancel_left service _ _ (
        append_cancel_left ":" _ _
          (append_cancel_left consumer _ _ (append_cancel_left "trl:" _ _ e)))))

module _ (redis : Redis) (parse_duration : String → Option ℤ) (up : String → Bool) where
  open redis use {Store, get_int, ttl, incr_by, get-incr_by, ttl-incr_by, get-expire, ttl-expire}

  script_frame :
      (key : String) (w d : ℤ) (s : Store) (j : String)
      → key ≢ j
      → (get_int (token_add_script redis key w d s) j ≡ get_int s j)
        × (ttl (token_add_script redis key w d s) j ≡ ttl s j)
  unfolding token_add_script
  script_frame key w d s j h =
      let after = incr_by key d s in
      ground (
        arith,
        ==-ne key j h,
        get-incr_by key d s j,
        ttl-incr_by key d s j,
        get-expire key w after j,
        ttl-expire key w after j,
      )

  debited_frame :
      (key j : String) (s : Store)
      → key ≢ j
      → (total : ℤ) (budget : ℤ) (period : String)
      → let t = (debited redis parse_duration up key budget period total s).1 in
        (get_int t j ≡ get_int s j) × (ttl t j ≡ ttl s j)
  unfolding debited
  debited_frame key j s h total budget period = elim (Option-cases (parse_duration period)) [
    | inl e ↦ ground (arith, e)
    | inr (d, e) ↦ ground (arith, e, script_frame key (whole_seconds d) total s j h)
  ]

  add_frame :
      (l : Limiter) (consumer user_type service : String) (total : ℤ) (s : Store) (j : String)
      → token_key consumer service user_type ≢ j
      → let t = (add_tokens_for redis parse_duration l up consumer user_type service total s).1 in
        (get_int t j ≡ get_int s j) × (ttl t j ≡ ttl s j)
  unfolding add_tokens_for
  add_frame l consumer user_type service total s j h =
      elim (Option-cases (entry_of (l.limits service) user_type)) [
        | inl e ↦ ground (arith, e)
        | inr (c, e) ↦ ground (
          arith,
          e,
          debited_frame (token_key consumer service user_type) j s h total c.token_rate
              c.token_period,
        )
      ]

  check_frame :
      (l : Limiter) (r : Request) (service : String) (s t : Store)
      → r.policy ≡ none
      → let i = resolve_identity l r service in
        let key = token_key i.consumer service i.user_type in
        get_int t key ≡ get_int s key
        → ttl t key ≡ ttl s key
        → check_tokens redis parse_duration l up r service t
          ≡ check_tokens redis parse_duration l up r service s
  unfolding check_tokens
  check_frame l r service s t h g k = ground (arith, h, g, k)

  star_identity :
      (l : Limiter) (r : Request) (service : String) (m : String → Option RateLimitConfig)
      (star : RateLimitConfig)
      → l.limits service ≡ some m
      → m (submitted_user_type l r) ≡ none
      → m "*" ≡ some star
      → resolve_identity l r service
        ≡ record { consumer = consumer_of l r; user_type = "*"; config = star }
  unfolding resolve_identity submitted_user_type
  star_identity l r service m star e f g = ground (arith, e, f, g)

  own_identity :
      (l : Limiter) (r : Request) (service : String) (m : String → Option RateLimitConfig)
      (cfg : RateLimitConfig)
      → l.limits service ≡ some m
      → m (submitted_user_type l r) ≡ some cfg
      → submitted_user_type l r ≢ ""
      → resolve_identity l r service
        ≡ record { consumer = consumer_of l r; user_type = submitted_user_type l r; config = cfg }
  unfolding resolve_identity submitted_user_type
  own_identity l r service m cfg e f u =
      ground (arith, e, f, eq_iff (r.header l.user_type_header) "")

  -- A user type with no entry of its own falls under "*": its requests are checked against the key
  -- of "*", and the tokens of its async jobs are debited to another key. No number of them changes
  -- what the next request is answered.
  pub check_tokens-unseen_debit :
      (l : Limiter) (r : Request) (service : String) (m : String → Option RateLimitConfig)
      (star : RateLimitConfig) (total : ℤ) (s : Store)
      → l.limits service ≡ some m
      → m (submitted_user_type l r) ≡ none
      → m "*" ≡ some star
      → r.policy ≡ none
      → check_tokens redis parse_duration l up r service
          (add_tokens_for redis parse_duration l up
            (consumer_of l r)
            (submitted_user_type l r)
            service
            total
            s).1
        ≡ check_tokens redis parse_duration l up r service s
  check_tokens-unseen_debit l r service m star total s e f g h =
      let u = submitted_user_type l r in
      let i = star_identity l r service m star e f g in
      let (same, lasts) =
        add_frame l (consumer_of l r) u service total s (token_key (consumer_of l r) service "*")
          (token_key-ne (consumer_of l r) service u "*" (λ p. cc)) in
      check_frame l r service s _ h (rw i same) (rw i lasts)

  -- Where the user type of a submitted job has an entry of its own, the debit of its completion is
  -- the one that a request with its headers makes.
  pub add_tokens_for-add_tokens :
      (l : Limiter) (r : Request) (service : String) (m : String → Option RateLimitConfig)
      (cfg : RateLimitConfig) (total : ℤ) (s : Store)
      → l.limits service ≡ some m
      → m (submitted_user_type l r) ≡ some cfg
      → submitted_user_type l r ≢ ""
      → pos 0 <ℤ total
      → pos 0 <ℤ cfg.token_rate
      → r.policy ≡ none
      → add_tokens_for redis parse_duration l up
          (consumer_of l r)
          (submitted_user_type l r)
          service
          total
          s
        ≡ add_tokens redis parse_duration l up r service total s
  unfolding add_tokens_for add_tokens
  add_tokens_for-add_tokens l r service m cfg total s e f u p q h =
      ground (arith, own_identity l r service m cfg e f u)
