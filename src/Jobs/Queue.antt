-- ===== src/Jobs/Queue.antt =====
-- storage/redis.go: the relay's lists of a model, from submission to completion or cancellation.
pub mod Order
pub mod Cancelling
use gatew_ai.Base.{Bool, ◌≡◌, Option, none, some, String, append, if◌then◌else◌}
use gatew_ai.Server.{present, Server, View}
use gatew_ai.Jobs.{Job, JobStatus, cancelled, Codec, JobTtl, pending_key, queue_key, processing_key}
use gatew_ai.Jobs.Records.{Error, Outcome, update_job_result}

abbrev pub cancelled_by_client : String → Outcome
cancelled_by_client at = record {
  status = cancelled;
  result_ref = "";
  error = "cancelled by client";
  at = at;
}

module _ (server : Server) where
  open server use {Store, view, lmove, lrem}

  -- BLMOVE: nothing here stands for the wait for a job.
  unfoldable pub pop_job : String → Store → Option String × Store
  pop_job model s = lmove (pending_key model) (processing_key model) s

  -- Whether GetQueuePosition finds a position.
  unfoldable pub has_queue_position : String → String → Store → Bool
  has_queue_position id model s = present ((view s).score (queue_key model) id)

  unfoldable pub done_job : String → String → Store → Store
  done_job id model s = lrem (processing_key model) id s

  -- A failed update is returned; the relay is also told by a message.
  unfoldable pub mark_job_cancelled :
      Codec → JobTtl → String → String → String → Store → Option Error × Store
  mark_job_cancelled codec ttls id model at s =
      let (error, after) = update_job_result server codec ttls id (cancelled_by_client at) s in
      elim error [ some e ↦ (some e, after) | none ↦ (none, lrem (pending_key model) id after) ]
