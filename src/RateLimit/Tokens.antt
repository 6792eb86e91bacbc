-- ===== src/RateLimit/Tokens.antt =====
-- ratelimit.go: the budgets of tokens and of processing time, that are read before a request and
-- debited after it.
pub mod Spending
pub mod Completion
use gatew_ai.Base.{
  Bool, true, false, not, ◌&&◌, ◌||◌, Option, none, some, String, append, str_eq, if◌then◌else◌,
}
use gatew_ai.Base.Int.{ℤ, pos, leb_ℤ, ltb_ℤ, eqb_ℤ}
use gatew_ai.Redis.{Redis, or_zero}
use gatew_ai.RateLimit.{
  RateLimitConfig, CheckResult, allowed_only, Error, bad_period, Reply, ok, Limiter, Request,
  Identity, resolve_from_map, resolve_identity, whole_seconds, seconds, remaining_of, key₂, key₃,
}

-- `budgetKey`, or the model's name where it is empty.
abbrev pub budget_or : String → String → String
budget_or key model = if str_eq key "" then model else key

abbrev pub token_key : String → String → String → String
token_key consumer service user_type = key₃ "trl:" consumer service user_type

abbrev pub model_token_key : String → String → String → String
model_token_key consumer budget user_type =
    append "trl:" (append consumer (append ":model:" (append budget (append ":" user_type))))

abbrev pub policy_token_key : String → String → String
policy_token_key consumer service = key₂ "trlp:" consumer service

abbrev pub processing_key : String → String → String → String
processing_key consumer service user_type = key₃ "ptrl:" consumer service user_type

-- When the window ends: as the server says, or a period from now if a refused key has no expiry.
token_reset : Bool → ℤ → ℤ → ℤ
token_reset allowed period ttl =
    if ltb_ℤ (pos 0) ttl then seconds ttl else if not allowed then period else pos 0

unfoldable pub token_result : ℤ → ℤ → ℤ → ℤ → CheckResult
unfolding token_reset
token_result rate period count ttl = record {
  allowed = ltb_ℤ count rate;
  limit = rate;
  remaining = remaining_of rate count;
  reset_after = token_reset (ltb_ℤ count rate) period ttl;
}

processing_reset : Bool → ℤ → ℤ → ℤ
processing_reset true period ttl = pos 0
processing_reset false period ttl = if ltb_ℤ (pos 0) ttl then seconds ttl else period

unfoldable pub processing_result : ℤ → ℤ → ℤ → ℤ → CheckResult
unfolding processing_reset
processing_result budget period count ttl = record {
  allowed = ltb_ℤ count budget;
  limit = budget;
  remaining = remaining_of budget count;
  reset_after = processing_reset (ltb_ℤ count budget) period ttl;
}

abbrev unparsed : String → Reply
unparsed period = record { result = allowed_only; error = some (bad_period period) }

-- The entry of a user type, or the one of "*".
abbrev pub entry_of : Option (String → Option RateLimitConfig) → String → Option RateLimitConfig
entry_of none user_type = none
entry_of (some m) user_type = elim (m user_type) [ some c ↦ some c | none ↦ m "*" ]

module _ (redis : Redis) where
  open redis use {Store, get_int, ttl, incr_by, expire}

  -- The script that debits a budget, and sets the time to live if the key was not there.
  unfoldable pub token_add_script : String → ℤ → ℤ → Store → Store
  token_add_script key window delta s =
      let after = incr_by key delta s in
      if eqb_ℤ (or_zero (get_int after key)) delta then expire key window after else after

  -- A script that fails changes nothing, and its error is only counted.
  added : Bool → String → ℤ → ℤ → Store → Store
  added false key window delta s = s
  added true key window delta s = token_add_script key window delta s

  count_of : Store → String → ℤ
  count_of s key = or_zero (get_int s key)

  module _ (parse_duration : String → Option ℤ) where
    -- The three checks of a service type, a model and a policy rule read one script; reading leaves
    -- the store as it is.
    service_budget : Option ℤ → Bool → String → RateLimitConfig → Store → Reply
    unfolding count_of
    service_budget none up key cfg s = unparsed cfg.token_period
    service_budget (some period) up key cfg s =
        if up
        then ok (token_result cfg.token_rate period (count_of s key) (ttl s key))
        else ok allowed_only

    policy_used_up : Option ℤ → Bool → String → RateLimitConfig → Reply → Store → Reply
    unfolding count_of
    policy_used_up none up key cfg reply s = reply
    policy_used_up (some period) up key cfg reply s =
        if up
        then (if ltb_ℤ (count_of s key) cfg.token_rate
            then reply
            else ok (record {
              allowed = false;
              limit = cfg.token_rate;
              remaining = pos 0;
              reset_after = if ltb_ℤ (pos 0) (ttl s key) then seconds (ttl s key) else period;
            }))
        else reply

    policy_budget :
        (String → Bool) → Option RateLimitConfig → String → String → Reply → Store → Reply
    unfolding policy_used_up
    policy_budget up none consumer service reply s = reply
    policy_budget up (some cfg) consumer service reply s =
        if eqb_ℤ cfg.token_rate (pos 0) || str_eq consumer "anonymous"
        then reply
        else policy_used_up (parse_duration cfg.token_period)
            (up (policy_token_key consumer service)) (policy_token_key consumer service) cfg reply s

    after_budget : Reply → Reply → Reply
    after_budget reply rest = elim reply.error [
      | some _ ↦ reply
      | none ↦ if not reply.result.allowed then reply else rest
    ]

    unfoldable pub check_tokens : Limiter → (String → Bool) → Request → String → Store → Reply
    unfolding service_budget policy_budget after_budget
    check_tokens l up r service s =
        let i = resolve_identity l r service in
        let key = token_key i.consumer service i.user_type in
        let reply =
          if eqb_ℤ i.config.token_rate (pos 0)
          then ok allowed_only
          else service_budget (parse_duration i.config.token_period) (up key) key i.config s in
        after_budget reply (policy_budget up r.policy i.consumer service reply s)

    unfoldable pub check_model_tokens :
        Limiter → (String → Bool) → Request → String → String → Store → Reply
    unfolding service_budget
    check_model_tokens l up r model budget s =
        let i = resolve_from_map l r model l.model_limits in
        let key = model_token_key i.consumer (budget_or budget model) i.user_type in
        if eqb_ℤ i.config.token_rate (pos 0)
        then ok allowed_only
        else service_budget (parse_duration i.config.token_period) (up key) key i.config s

    add_policy : (String → Bool) → Option RateLimitConfig → String → String → ℤ → Store → Store
    unfolding added
    add_policy up none consumer service total s = s
    add_policy up (some cfg) consumer service total s =
        let key = policy_token_key consumer service in
        if ltb_ℤ (pos 0) cfg.token_rate && not (str_eq consumer "anonymous")
        then elim (parse_duration cfg.token_period) [
          | none ↦ s
          | some period ↦ added (up key) key (whole_seconds period) total s
        ]
        else s

    unfoldable pub add_tokens :
        Limiter → (String → Bool) → Request → String → ℤ → Store → Option Error × Store
    unfolding added add_policy
    add_tokens l up r service total s =
        let i = resolve_identity l r service in
        let key = token_key i.consumer service i.user_type in
        if eqb_ℤ total (pos 0)
        then (none, s)
        else if ltb_ℤ (pos 0) i.config.token_rate
        then elim (parse_duration i.config.token_period) [
          | none ↦ (some (bad_period i.config.token_period), s)
          | some period ↦ (
            none,
            add_policy up r.policy i.consumer service total
                (added (up key) key (whole_seconds period) total s),
          )
        ]
        else (none, add_policy up r.policy i.consumer service total s)

    unfoldable pub add_model_tokens :
        Limiter → (String → Bool) → Request → String → String → ℤ → Store → Option Error × Store
    unfolding added
    add_model_tokens l up r model budget total s =
        let i = resolve_from_map l r model l.model_limits in
        let key = model_token_key i.consumer (budget_or budget model) i.user_type in
        if eqb_ℤ total (pos 0) || eqb_ℤ i.config.token_rate (pos 0)
        then (none, s)
        else elim (parse_duration i.config.token_period) [
          | none ↦ (some (bad_period i.config.token_period), s)
          | some period ↦ (none, added (up key) key (whole_seconds period) total s)
        ]

    debited : (String → Bool) → String → ℤ → String → ℤ → Store → Option Error × Store
    unfolding added
    debited up key budget period total s =
        if eqb_ℤ budget (pos 0) then (none, s) else elim (parse_duration period) [
          | none ↦ (some (bad_period period), s)
          | some d ↦ (none, added (up key) key (whole_seconds d) total s)
        ]

    -- The completion of an async job knows the consumer and the user type, but no request.
    unfoldable pub add_tokens_for :
        Limiter → (String → Bool) → String → String → String → ℤ → Store → Option Error × Store
    unfolding debited
    add_tokens_for l up consumer user_type service total s =
        if leb_ℤ total (pos 0) then (none, s) else elim (entry_of (l.limits service) user_type) [
          | none ↦ (none, s)
          | some cfg ↦
              debited up (token_key consumer service user_type) cfg.token_rate cfg.token_period
                total s
        ]

    unfoldable pub check_processing_time :
        Limiter → (String → Bool) → Request → String → Store → Reply
    unfolding count_of
    check_processing_time l up r service s =
        let i = resolve_identity l r service in
        let key = processing_key i.consumer service i.user_type in
        let cfg = i.config in
        if eqb_ℤ cfg.processing_time (pos 0)
        then ok allowed_only
        else elim (parse_duration cfg.processing_period) [
          | none ↦ unparsed cfg.processing_period
          | some period ↦
              if up key
              then ok (processing_result cfg.processing_time period (count_of s key) (ttl s key))
              else ok allowed_only
        ]

    -- `delta` is `math.Ceil(seconds)`, so it is positive exactly if the seconds are.
    unfoldable pub add_processing_time :
        Limiter → (String → Bool) → String → String → String → ℤ → Store → Option Error × Store
    unfolding debited
    add_processing_time l up consumer user_type service delta s =
        if leb_ℤ delta (pos 0) then (none, s) else elim (entry_of (l.limits service) user_type) [
          | none ↦ (none, s)
          | some cfg ↦
              debited up (processing_key consumer service user_type) cfg.processing_time
                cfg.processing_period delta s
        ]
