-- ===== src/Jobs/Submission.antt =====
-- internal/handler/jobs.go: the end of Submit, from the job that is built on, with the gate of its result
-- (SetScanGate, ClearScanGate of internal/storage/redis.go). Each call of Redis may fail, by an
-- argument; a call that fails changes nothing. Metrics, usage and the uploaded file are left out.
pub mod Saved
pub mod Replay
pub mod Gating
pub mod Examples
use gatew_ai.Base.{
  ℕ, suc, Bool, true, false, not, ◌&&◌, ◌||◌, Option, none, some, String, append, str_eq,
  if◌then◌else◌,
}
use gatew_ai.Server.{Server, View}
use gatew_ai.Jobs.{Job, Codec, JobTtl, completed, ttl_for_status, scan_gate_key}
use gatew_ai.Jobs.Records.{Error, save_job, get_job}
use gatew_ai.Jobs.Reaper.{decimal}
use gatew_ai.Jobs.Claims.{reserve_idempotency_key, get_idempotency_key, release_idempotency_key}

-- The async guardrails of the service, if they block or redact.
pub record Gate : Type 0 where
  pub timeout : ℕ  -- s
  pub fail_closed : Bool

-- Which calls succeed.
pub record Calls : Type 0 where
  pub reserves : Bool
  pub reads_key : Bool
  pub reads_job : Bool
  pub arms : Bool
  pub saves : Bool
  pub releases : Bool
  pub clears : Bool

abbrev pub all_succeed : Calls
all_succeed = record {
  reserves = true;
  reads_key = true;
  reads_job = true;
  arms = true;
  saves = true;
  releases = true;
  clears = true;
}

pub data Submitted : Type 0 where
  accepted : (id : String) → Submitted  -- 202
  replayed : Job → Submitted  -- 200
  conflict : Submitted  -- 409
  not_armed not_saved : Submitted  -- 500

abbrev policy_of : Gate → String
policy_of gate = if gate.fail_closed then "fail_closed" else "fail_open"

module _ (server : Server) (codec : Codec) (ttls : JobTtl) (marker_ttl idempotency_ttl : ℕ) where
  open server use {Store, set, del}

  unfoldable pub set_scan_gate : String → Gate → Store → Store
  set_scan_gate id gate s =
      set (scan_gate_key id)
        (append (decimal (suc gate.timeout) gate.timeout) (append "|" (policy_of gate)))
        (ttl_for_status ttls completed) s

  unfoldable pub clear_scan_gate : String → Store → Store
  clear_scan_gate id s = del (scan_gate_key id) s

  -- What a failed submission takes back.
  unfoldable pub released : Calls → Job → String → Store → Store
  released calls j key s =
      if not (str_eq key "") && calls.releases
      then release_idempotency_key server j.consumer_name key s
      else s

  unfoldable pub cleared : Calls → Job → Option Gate → Store → Store
  unfolding clear_scan_gate
  cleared calls j none s = s
  cleared calls j (some gate) s = if calls.clears then clear_scan_gate j.id s else s

  unfoldable pub saved : Calls → Job → Option Gate → String → Store → Submitted × Store
  unfolding released cleared
  saved calls j gate key s =
      if not calls.saves
      then (not_saved, cleared calls j gate (released calls j key s))
      else (accepted j.id, save_job server codec ttls marker_ttl j s)

  -- The gate is armed before the job can be found.
  unfoldable pub armed : Calls → Job → Option Gate → String → Store → Submitted × Store
  unfolding saved set_scan_gate released
  armed calls j none key s = saved calls j none key s
  armed calls j (some gate) key s =
      if not calls.arms
      then (not_armed, released calls j key s)
      else saved calls j (some gate) key (set_scan_gate j.id gate s)

  -- The job that won the key, if it can be read.
  unfoldable pub original : Calls → Job → String → Store → Submitted
  original calls j key s =
      let existing =
        if calls.reads_key then get_idempotency_key server j.consumer_name key s else "" in
      if str_eq existing "" || not calls.reads_job
      then conflict
      else let (found, error) = get_job server codec existing s in
        elim error [
          | some _ ↦ conflict
          | none ↦ elim found [ none ↦ conflict | some job ↦ replayed job ]
        ]

  unfoldable pub submit : Calls → Job → Option Gate → String → Store → Submitted × Store
  unfolding armed original
  submit calls j gate key s =
      let (won, reserved) =
        reserve_idempotency_key server j.consumer_name key j.id idempotency_ttl s in
      if str_eq key "" || not calls.reserves
      then armed calls j gate key s
      else if won
      then armed calls j gate key reserved
      else (original calls j key reserved, reserved)
