-- ===== src/Jobs/Records.antt =====
-- storage/redis.go: saving, reading, updating, overriding and deleting the record of a job.
pub mod Terminal
pub mod Saving
use gatew_ai.Base.{
  ℕ, ◌≡◌, Bool, true, false, not, Option, none, some, String, str_eq, ltb, if◌then◌else◌,
}
use gatew_ai.Server.{Server, View}
use gatew_ai.Jobs.{
  Job, JobStatus, Codec, JobTtl, is_terminal_status, ttl_for_status, job_key, job_meta_key,
  consumer_key, queue_key, pending_key,
}

pub data Error : Type 0 where
  not_found malformed : Error

-- The fields that a result sets.
pub record Outcome : Type 0 where
  pub status : JobStatus
  pub result_ref : String
  pub error : String
  pub at : String

abbrev pub patched : Job → Outcome → Job
patched j o = record j {
  status = o.status;
  result_ref = o.result_ref;
  error = o.error;
  updated_at = o.at;
}

module _ (server : Server) (codec : Codec) where
  open server use {Store, view, set, del, zadd, zrem, lpush, rpush, expire}
  open codec use {encode, decode}

  -- GET on the job's key, and its decoding.
  decoded : Option String → Option Job
  decoded none = none
  decoded (some text) = decode text

  unfoldable pub stored : String → Store → Option Job
  unfolding decoded
  stored id s = decoded ((view s).text (job_key id))

  unfoldable pub get_job : String → Store → Option Job × Option Error
  unfolding decoded
  get_job id s = elim ((view s).text (job_key id)) [
    | none ↦ (none, some not_found)
    | some text ↦ elim (decode text) [ none ↦ (none, some malformed) | some j ↦ (some j, none) ]
  ]

  consumer_indexed : Job → ℕ → Store → Store
  consumer_indexed j ttl s =
      if not (str_eq j.consumer_name "")
      then expire (consumer_key j.consumer_name) ttl
          (zadd (consumer_key j.consumer_name) j.created_at j.id s)
      else s

  relayed : Job → Store → Store
  relayed j s =
      if j.priority then lpush (pending_key j.model) j.id s else rpush (pending_key j.model) j.id s

  tombstoned : Job → ℕ → Store → Store
  tombstoned j marker_ttl s =
      if ltb 0 marker_ttl then set (job_meta_key j.id) j.service_type marker_ttl s else s

  -- The transaction that saves a job.
  unfoldable pub save_job : JobTtl → ℕ → Job → Store → Store
  unfolding consumer_indexed relayed tombstoned
  save_job ttls marker_ttl j s =
      let ttl = ttl_for_status ttls j.status in
      let recorded = set (job_key j.id) (encode j) ttl s in
      let queued =
        expire (queue_key j.model) ttl (zadd (queue_key j.model) j.created_at j.id recorded) in
      tombstoned j marker_ttl (relayed j (consumer_indexed j ttl queued))

  left_queue : Job → String → Store → Store
  left_queue j id s = if not (str_eq j.model "") then zrem (queue_key j.model) id s else s

  -- The script: nothing happens to a terminal job.
  updated : String → Outcome → ℕ → Option Job → Store → Option Error × Store
  unfolding left_queue
  updated id o ttl none s = (some malformed, s)
  updated id o ttl (some j) s =
      if is_terminal_status j.status
      then (none, s)
      else (none, left_queue j id (set (job_key id) (encode (patched j o)) ttl s))

  unfoldable pub update_job_result : JobTtl → String → Outcome → Store → Option Error × Store
  unfolding updated
  update_job_result ttls id o s = elim ((view s).text (job_key id)) [
    | none ↦ (some not_found, s)
    | some text ↦ updated id o (ttl_for_status ttls o.status) (decode text) s
  ]

  overridden : String → Outcome → ℕ → Option Job → Store → Option Error × Store
  overridden id o ttl none s = (some malformed, s)
  overridden id o ttl (some j) s = (none, set (job_key id) (encode (patched j o)) ttl s)

  unfoldable pub override_job_result : JobTtl → String → Outcome → Store → Option Error × Store
  unfolding overridden
  override_job_result ttls id o s = elim ((view s).text (job_key id)) [
    | none ↦ (some not_found, s)
    | some text ↦ overridden id o (ttl_for_status ttls o.status) (decode text) s
  ]

  unindexed : String → Job → Store → Store
  unindexed id j s =
      let unlisted =
        if not (str_eq j.consumer_name "") then zrem (consumer_key j.consumer_name) id s else s in
      if not (str_eq j.model "") then zrem (queue_key j.model) id unlisted else unlisted

  -- A record that does not decode is deleted too.
  unfoldable pub delete_job : String → Store → Store
  unfolding unindexed decoded
  delete_job id s =
      del (job_key id)
        (elim (decoded ((view s).text (job_key id))) [ none ↦ s | some j ↦ unindexed id j s ])
