-- ===== src/Jobs/Polling/Isolation.antt =====
-- jobs.go: a consumer is told nothing of the jobs of another.
use gatew_ai.Base.{ℕ, ◌≡◌, ◌≢◌, Option, none, some, String, eq_iff, ==-ne, arith}
use gatew_ai.Server.{Server}
use gatew_ai.Jobs.{Job, Codec, JobTtl, scan_gate_key}
use gatew_ai.Jobs.Records.{get_job}
use gatew_ai.Jobs.Polling.{
  PollCalls, Answer, gone, missing, withheld, timed_out, shown, gated, polled, owned, get_status,
}

-- The job that an answer tells of.
abbrev pub job_of : Answer → Option Job
job_of gone = none
job_of missing = none
job_of (withheld j) = some j
job_of (timed_out j) = some j
job_of (shown j) = some j

module _ (server : Server) (codec : Codec) (ttls : JobTtl) (seconds : String → ℕ) where
  open server use {Store, view}

  job-polled :
      (calls : PollCalls) (now : ℕ) (at : String) (j : Job) (s : Store)
      → job_of (polled server codec ttls seconds calls now at j s).0 ≡ some j
  unfolding polled gated
  job-polled calls now at j s = ground (arith, (view s).text (scan_gate_key j.id))

  job-owned :
      (calls : PollCalls) (now : ℕ) (at requester service_type : String) (o : Option Job) (j : Job)
      (s : Store)
      → requester ≢ ""
      → job_of (owned server codec ttls seconds calls now at requester service_type o s).0 ≡ some j
      → (j.consumer_name ≡ requester) × (j.service_type ≡ service_type)
  unfolding owned
  job-owned calls now at requester service_type none j s n h = absurd (ground (arith, h))
  job-owned calls now at requester service_type (some k) j s n h = ground (
    arith,
    h,
    ==-ne requester "" n,
    job-polled calls now at k s,
    eq_iff k.consumer_name requester,
    eq_iff k.service_type service_type,
  )

  -- Where the request names a consumer, an answer tells of a job only if it is that consumer's and of the type
  -- that is asked for, whichever calls fail.
  pub job-get_status :
      (calls : PollCalls) (now : ℕ) (at requester service_type id : String) (j : Job) (s : Store)
      → requester ≢ ""
      → job_of (get_status server codec ttls seconds calls now at requester service_type id s).0
        ≡ some j
      → (j.consumer_name ≡ requester) × (j.service_type ≡ service_type)
  unfolding get_status
  job-get_status calls now at requester service_type id j s n h =
      let (found, error) = get_job server codec id s in
      ground (arith, h, job-owned calls now at requester service_type found j s n)
