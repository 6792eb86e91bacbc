-- ===== src/Jobs/Cancel.antt =====
-- internal/handler/jobs.go: Cancel, on MarkJobCancelled (Queue). Whether the job can be read and its record
-- updated is an argument; taking the id out of the list, and telling the relay, is tried once.
use gatew_ai.Base.{
  Bool, true, false, not, ◌&&◌, ◌||◌, Option, none, some, String, str_eq, if◌then◌else◌,
}
use gatew_ai.Server.{Server, present}
use gatew_ai.Jobs.{Job, JobStatus, pending, processing, Codec, JobTtl}
use gatew_ai.Jobs.Records.{get_job}
use gatew_ai.Jobs.Queue.{mark_job_cancelled}

pub record CancelCalls : Type 0 where
  pub reads_job : Bool
  pub updates : Bool

pub data CancelAnswer : Type 0 where
  missing : CancelAnswer  -- 404
  accepted : CancelAnswer  -- 202
  conflict : JobStatus → CancelAnswer  -- 409
  broken : CancelAnswer  -- 500

unfoldable pub can_cancel : JobStatus → Bool
can_cancel pending = true
can_cancel processing = true
can_cancel s = false

module _ (server : Server) (codec : Codec) (ttls : JobTtl) where
  open server use {Store}

  marked : CancelCalls → String → Job → String → Store → CancelAnswer × Store
  marked calls at j id s =
      let (error, after) = mark_job_cancelled server codec ttls id j.model at s in
      if not calls.updates || present error then (broken, s) else (accepted, after)

  unfoldable pub cancel_owned :
      CancelCalls → String → String → String → String → Option Job → Store → CancelAnswer × Store
  unfolding marked
  cancel_owned calls at requester service_type id none s = (missing, s)
  cancel_owned calls at requester service_type id (some j) s =
      if not (str_eq j.service_type service_type)
      then (missing, s)
      else if not (str_eq requester "") && not (str_eq j.consumer_name requester)
      then (missing, s)
      else if can_cancel j.status
      then marked calls at j id s
      else (conflict j.status, s)

  -- `requester` is the value of the consumer header, "" where it is absent or not configured. Nothing of
  -- another handler comes between the read of the record and its update.
  unfoldable pub cancel :
      CancelCalls → String → String → String → String → Store → CancelAnswer × Store
  unfolding cancel_owned
  cancel calls at requester service_type id s =
      let (found, error) = get_job server codec id s in
      if not calls.reads_job || present error
      then (missing, s)
      else cancel_owned calls at requester service_type id found s
