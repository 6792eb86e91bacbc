-- ===== src/RateLimit/Slots/Examples.antt =====
-- ratelimit.go: the theorems on slots, at a limit of three jobs with one active.
use gatew_ai.Base.{
  ◌+◌, ◌-◌, ◌≡◌, refl, false, Option, none, some, String, str_eq, min, List, [], ◌∷◌, if◌then◌else◌,
}
use gatew_ai.Base.Int.{pos}
use gatew_ai.Redis.Memory.{memory, empty}
use gatew_ai.Jobs.{Job, processing, completed}
use gatew_ai.RateLimit.{Limiter, Request, no_limits, resolve_identity}
use gatew_ai.RateLimit.Slots.{active_jobs}
use gatew_ai.RateLimit.Slots.Reserving.{IsLimited, admitted, admitted-min}

abbrev limiter : Limiter
limiter = record {
  limits = λ s.
      if str_eq s "audio"
      then some
          (λ u. if str_eq u "*" then some (record no_limits { max_concurrent = pos 3 }) else none)
      else none;
  model_limits = λ s. none;
  consumer_header = "X-Consumer";
  user_type_header = "";
  pool_limits = λ s. none;
  pool_member_limits = λ s. none;
}

abbrev request : Request
request = record { header = λ h. "ada"; policy = none }

abbrev talk : Job
talk = record {
  id = "1";
  service_type = "audio";
  model = "m";
  status = processing;
  input_ref = "";
  result_ref = "";
  callback_url = "";
  inference_url = "";
  params = [];
  consumer_name = "ada";
  user_type = "";
  priority = false;
  error = "";
  processing_time = 0;
  prompt_tokens = 0;
  completion_tokens = 0;
  created_at = 7;
  updated_at = "";
  trace_context = "";
}

-- "1" is active, "2" is complete, and "3" is gone.
abbrev records : String → Option Job
records id =
    if str_eq id "1"
    then some talk
    else if str_eq id "2"
    then some (record talk { status = completed })
    else none

abbrev ids : List String
ids = "1" ∷ "2" ∷ "3" ∷ []

one_active : active_jobs "audio" records ids ≡ 1
unfolding active_jobs
one_active = refl

limited : IsLimited memory limiter request "audio" 2
unfolding resolve_identity
limited = record { configured = refl; limit = refl; known = refl }

admitted-min_example :
    admitted memory limiter request "audio" records ids 5 empty
    ≡ min 5 (3 - (active_jobs "audio" records ids + 0))
admitted-min_example =
    admitted-min memory limiter request "audio" 2 0 5 records ids empty limited refl
