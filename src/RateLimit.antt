-- ===== src/RateLimit.antt =====
-- internal/ratelimit/ratelimit.go: the limiter's configuration, the identity of a request, and the
-- two forms of counter (fixed windows, budgets) that its checks share. The Redis server is a
-- parameter (Redis), and so is `time.ParseDuration`: it returns nanoseconds, or nothing for an error.
pub mod Window
pub mod Requests
pub mod Tokens
pub mod Slots
pub mod Quotas
pub mod Examples
use gatew_ai.Base.{
  ℕ, ◌+◌, ◌*◌, ◌/◌, ◌≡◌, Bool, true, false, not, ◌&&◌, ◌||◌, Option, none, some, String, append,
  str_eq, leb, if◌then◌else◌,
}
use gatew_ai.Base.Int.{ℤ, pos, negsuc, ◌-ℤ◌, leb_ℤ, ltb_ℤ, eqb_ℤ, pos_part}

-- internal/config/config.go
pub record RateLimitConfig : Type 0 where
  pub rate : ℤ
  pub period : String
  pub token_rate : ℤ
  pub token_period : String
  pub max_concurrent : ℤ
  pub processing_time : ℤ
  pub processing_period : String

-- Go's zero value, which a missing entry stands for.
abbrev pub no_limits : RateLimitConfig
no_limits = record {
  rate = pos 0;
  period = "";
  token_rate = pos 0;
  token_period = "";
  max_concurrent = pos 0;
  processing_time = pos 0;
  processing_period = "";
}

pub record CheckResult : Type 0 where
  pub allowed : Bool
  pub limit : ℤ
  pub remaining : ℤ
  pub reset_after : ℤ  -- ns

abbrev pub allowed_only : CheckResult
allowed_only = record { allowed = true; limit = pos 0; remaining = pos 0; reset_after = pos 0 }

abbrev pub no_result : CheckResult
no_result = record { allowed = false; limit = pos 0; remaining = pos 0; reset_after = pos 0 }

pub data Error : Type 0 where
  bad_period : String → Error
  script_failed : Error

-- Go's pair of a result and an error.
pub record Reply : Type 0 where
  pub result : CheckResult
  pub error : Option Error

abbrev pub ok : CheckResult → Reply
ok r = record { result = r; error = none }

abbrev pub Limits : Type 0
Limits = String → Option (String → Option RateLimitConfig)

pub record Limiter : Type 0 where
  pub limits : Limits
  pub model_limits : Limits
  pub consumer_header : String
  pub user_type_header : String
  pub pool_limits : String → Option RateLimitConfig
  pub pool_member_limits : Limits

abbrev pub new_limiter : Limits → Limits → String → String → Limiter
new_limiter limits model_limits consumer_header user_type_header = record {
  limits = limits;
  model_limits = model_limits;
  consumer_header = consumer_header;
  user_type_header = user_type_header;
  pool_limits = λ _. none;
  pool_member_limits = λ _. none;
}

abbrev pub set_pool_limits : (String → Option RateLimitConfig) → Limits → Limiter → Limiter
set_pool_limits pools members l = record l { pool_limits = pools; pool_member_limits = members }

-- The headers of an HTTP request ("" if absent), and the limits of the matched policy rule that
-- `WithPolicyLimits` put into the context.
pub record Request : Type 0 where
  pub header : String → String
  pub policy : Option RateLimitConfig

pub record Identity : Type 0 where
  pub consumer : String
  pub user_type : String
  pub config : RateLimitConfig

abbrev header_or : String → String → Request → String
header_or name default r =
    if not (str_eq name "")
    then (if not (str_eq (r.header name) "") then r.header name else default)
    else default

abbrev pub consumer_of : Limiter → Request → String
consumer_of l r = header_or l.consumer_header "anonymous" r

abbrev pub user_type_of : Limiter → Request → String
user_type_of l r = header_or l.user_type_header "*" r

starred : String → String → Option RateLimitConfig → Identity
starred consumer user_type (some c) = record { consumer = consumer; user_type = "*"; config = c }
starred consumer user_type none = record {
  consumer = consumer;
  user_type = user_type;
  config = no_limits;
}

matched : String → String → Option RateLimitConfig → Option RateLimitConfig → Identity
unfolding starred
matched consumer user_type (some c) star = record {
  consumer = consumer;
  user_type = user_type;
  config = c;
}
matched consumer user_type none star = starred consumer user_type star

keyed : String → String → Option (String → Option RateLimitConfig) → Identity
unfolding matched
keyed consumer user_type none = record {
  consumer = consumer;
  user_type = user_type;
  config = no_limits;
}
keyed consumer user_type (some m) = matched consumer user_type (m user_type) (m "*")

unfoldable pub resolve_from_map : Limiter → Request → String → Limits → Identity
unfolding keyed
resolve_from_map l r key limits = keyed (consumer_of l r) (user_type_of l r) (limits key)

unfoldable pub resolve_identity : Limiter → Request → String → Identity
unfolding resolve_from_map
resolve_identity l r service = resolve_from_map l r service l.limits

-- fmt.Sprintf with two and three parts behind a prefix.
abbrev pub key₂ : String → String → String → String
key₂ prefix a b = append prefix (append a (append ":" b))

abbrev pub key₃ : String → String → String → String → String
key₃ prefix a b c = append prefix (append a (append ":" (append b (append ":" c))))

-- Durations: whole seconds of a nanosecond count, rounded up (`math.Ceil(d.Seconds())`) and towards
-- zero (`int(d.Seconds())`), and `time.Duration(n) * time.Second`.
abbrev pub nanos : ℕ
nanos = 1_000_000_000

abbrev minus : ℕ → ℤ
minus n = pos 0 -ℤ pos n

unfoldable pub ceil_seconds : ℤ → ℤ
ceil_seconds (pos n) = pos ((n + 999_999_999) / nanos)
ceil_seconds (negsuc n) = minus ((n + 1) / nanos)

unfoldable pub whole_seconds : ℤ → ℤ
whole_seconds (pos n) = pos (n / nanos)
whole_seconds (negsuc n) = minus ((n + 1) / nanos)

unfoldable pub seconds : ℤ → ℤ
seconds (pos n) = pos (n * nanos)
seconds (negsuc n) = minus ((n + 1) * nanos)

-- `remaining := limit - count; if remaining < 0 { remaining = 0 }`
unfoldable pub remaining_of : ℤ → ℤ → ℤ
remaining_of limit count = if ltb_ℤ (limit -ℤ count) (pos 0) then pos 0 else limit -ℤ count
