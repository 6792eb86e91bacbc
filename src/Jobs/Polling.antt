-- ===== src/Jobs/Polling.antt =====
-- internal/handler/jobs.go: GetStatus up to the result that it inlines, with the gate that withholds it
-- (GetScanGate and JobEverExisted of internal/storage/redis.go). Each call of Redis may fail, by an argument. How a
-- time stamp reads, in seconds, is an argument; the place in the queue and the clean-up are left out.
pub mod Isolation
pub mod Timeout
pub mod Examples
use Prim.Native.String.{len, slice, [] as nil, ◌∷◌ as char_then}
use Prim.Native.Char.{Char, code}
use text.Mathlib.Text.{find?}
use gatew_ai.Base.{
  ℕ, zero, suc, ◌+◌, ◌-◌, ◌*◌, Bool, true, false, not, ◌&&◌, ◌||◌, Option, none, some, String,
  str_eq, ltb, leb, if◌then◌else◌,
}
use gatew_ai.Server.{Server, View, present}
use gatew_ai.Jobs.{Job, JobStatus, completed, failed, Codec, JobTtl, job_meta_key, scan_gate_key}
use gatew_ai.Jobs.Records.{Error, Outcome, get_job, override_job_result}
use gatew_ai.Jobs.Submission.{Gate}

-- strconv.ParseInt of a number without a sign; 0 for any other text.
unfoldable pub digits : String → ℕ → ℕ
digits nil n = n
digits (char_then c s) n =
    let rest = digits s (n * 10 + (code c - 48)) in
    if leb 48 (code c) && leb (code c) 57 then rest else 0

unfoldable pub parse_gate : String → Gate
unfolding digits
parse_gate v = elim (find? v "|") [
  | none ↦ record { timeout = digits v 0; fail_closed = false }
  | some i ↦ record {
    timeout = digits (slice v 0 i) 0;
    fail_closed = str_eq (slice v (suc i) (len v)) "fail_closed";
  }
]

-- Which calls succeed.
pub record PollCalls : Type 0 where
  pub reads_job : Bool
  pub reads_marker : Bool
  pub reads_gate : Bool
  pub overrides : Bool
  pub clears : Bool

abbrev pub no_error : PollCalls
no_error = record {
  reads_job = true;
  reads_marker = true;
  reads_gate = true;
  overrides = true;
  clears = true;
}

pub data Answer : Type 0 where
  gone : Answer  -- 410: expired
  missing : Answer  -- 404
  withheld : Job → Answer  -- 200, as processing
  timed_out : Job → Answer  -- 200, as failed
  shown : Job → Answer  -- 200, with the result where it is completed

abbrev pub scan_timed_out : String → Outcome
scan_timed_out at = record {
  status = failed;
  result_ref = "";
  error = "guardrail result scan timed out";
  at = at;
}

abbrev pub is_completed : JobStatus → Bool
is_completed completed = true
is_completed s = false

module _ (server : Server) (codec : Codec) (ttls : JobTtl) (seconds : String → ℕ) where
  open server use {Store, view, del}

  unfoldable pub gate_cleared : PollCalls → String → Store → Store
  gate_cleared calls id s = if calls.clears then del (scan_gate_key id) s else s

  unfoldable pub overridden_timeout : PollCalls → String → String → Store → Store
  overridden_timeout calls at id s =
      let after = (override_job_result server codec ttls id (scan_timed_out at) s).1 in
      if calls.overrides then after else s

  -- A completed job with a gate; `at` is the time stamp of an update.
  unfoldable pub gated : PollCalls → ℕ → String → Job → Gate → Store → Answer × Store
  unfolding gate_cleared overridden_timeout
  gated calls now at j gate s =
      if ltb now (seconds j.updated_at + gate.timeout)
      then (withheld j, s)
      else if gate.fail_closed
      then (timed_out j, gate_cleared calls j.id (overridden_timeout calls at j.id s))
      else (shown j, gate_cleared calls j.id s)

  unfoldable pub polled : PollCalls → ℕ → String → Job → Store → Answer × Store
  unfolding gated
  polled calls now at j s =
      if not (is_completed j.status) || not calls.reads_gate
      then (shown j, s)
      else elim ((view s).text (scan_gate_key j.id)) [
        | none ↦ (shown j, s)
        | some v ↦ gated calls now at j (parse_gate v) s
      ]

  unfoldable pub owned :
      PollCalls → ℕ → String → String → String → Option Job → Store → Answer × Store
  unfolding polled
  owned calls now at requester service_type none s = (missing, s)
  owned calls now at requester service_type (some j) s =
      if not (str_eq j.service_type service_type)
      then (missing, s)
      else if not (str_eq requester "") && not (str_eq j.consumer_name requester)
      then (missing, s)
      else polled calls now at j s

  -- `requester` is the value of the consumer header, "" where it is absent or not configured.
  unfoldable pub get_status :
      PollCalls → ℕ → String → String → String → String → Store → Answer × Store
  unfolding owned
  get_status calls now at requester service_type id s =
      let (found, error) = get_job server codec id s in
      if not calls.reads_job || present error
      then (
        (if calls.reads_marker && present ((view s).text (job_meta_key id)) then gone else missing),
        s,
      )
      else owned calls now at requester service_type found s
