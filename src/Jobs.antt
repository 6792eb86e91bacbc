-- ===== src/Jobs.antt =====
-- internal/model/job.go, and the keys and times to live of internal/storage/redis.go. The Redis server
-- is a parameter (Server), and so is the JSON form of a job's record, which Go and the server's Lua
-- share: what is encoded is decoded to itself.
pub mod Records
pub mod Queue
pub mod Claims
pub mod Reaper
pub mod Submission
pub mod Polling
pub mod Cancel
pub mod Completion
pub mod Sweeping
pub mod Textual
pub mod Examples
use gatew_ai.Base.{
  ℕ, ◌*◌, ◌≡◌, Bool, true, false, ◌||◌, Option, none, some, String, append, str_eq, List, ◌==◌,
  if◌then◌else◌,
}

pub data JobStatus : Type 0 where
  pending processing completed failed cancelled expired : JobStatus

pub record Job : Type 0 where
  pub id : String
  pub service_type : String
  pub model : String
  pub status : JobStatus
  pub input_ref : String
  pub result_ref : String
  pub callback_url : String
  pub inference_url : String
  pub params : List (String × String)
  pub consumer_name : String
  pub user_type : String
  pub priority : Bool
  pub error : String
  pub processing_time : ℕ  -- a float64 of seconds, as its bits
  pub prompt_tokens : ℕ
  pub completion_tokens : ℕ
  pub created_at : ℕ  -- Unix seconds
  pub updated_at : String
  pub trace_context : String

pub record Codec : Type 0 where
  pub encode : Job → String
  pub decode : String → Option Job
  pub decode-encode : (j : Job) → decode (encode j) ≡ some j

unfoldable pub is_terminal_status : JobStatus → Bool
is_terminal_status completed = true
is_terminal_status failed = true
is_terminal_status cancelled = true
is_terminal_status s = false

-- config.JobTtlConfig, in seconds; 0: not set.
pub record JobTtl : Type 0 where
  pub global : ℕ
  pub pending_ttl : ℕ
  pub completed_ttl : ℕ
  pub failed_ttl : ℕ
  pub cancelled_ttl : ℕ

abbrev or_else : ℕ → ℕ → ℕ
or_else d e = if d == 0 then e else d

abbrev own_ttl : JobTtl → JobStatus → ℕ
own_ttl c pending = c.pending_ttl
own_ttl c processing = c.pending_ttl
own_ttl c completed = c.completed_ttl
own_ttl c failed = c.failed_ttl
own_ttl c cancelled = or_else c.cancelled_ttl c.failed_ttl
own_ttl c expired = 0

unfoldable pub ttl_for_status : JobTtl → JobStatus → ℕ
ttl_for_status c status = or_else (or_else (own_ttl c status) c.global) 7200

abbrev pub job_key : String → String
job_key id = append "job:" id

abbrev pub job_meta_key : String → String
job_meta_key id = append "jobmeta:" id

abbrev pub consumer_key : String → String
consumer_key name = append "consumer:" (append name ":jobs")

abbrev pub queue_key : String → String
queue_key model = append "queue:" model

abbrev pub relay_key : String → String → String
relay_key model list = append "relay:" (append model list)

abbrev pub pending_key : String → String
pending_key model = relay_key model ":pending"

abbrev pub processing_key : String → String
processing_key model = relay_key model ":processing"

abbrev pub dead_letter_key : String → String
dead_letter_key model = relay_key model ":deadletter"

abbrev pub lease_key : String → String → String
lease_key model id = append "relay:" (append model (append ":lease:" id))

abbrev pub attempts_key : String → String → String
attempts_key model id = append "relay:" (append model (append ":attempts:" id))

abbrev pub completion_claim_key : String → String
completion_claim_key id = append "complete:" id

abbrev pub idempotency_key : String → String → String
idempotency_key consumer key = append "idem:" (append consumer (append ":" key))

-- The key of the gate that withholds a result until it is scanned.
abbrev pub scan_gate_key : String → String
scan_gate_key id = append "jobscan:" id
