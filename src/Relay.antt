-- ===== src/Relay.antt =====
-- relay/internal/store/redis.go, relay/internal/queue/queue.go and PublishResult of relay/cmd/relay/main.go: what
-- one relay pod does to the Redis server that it shares with the gateway, and to the object store. Each
-- call may fail, by an argument. Redis, the form of a job's record and the object store's
-- failures are parameters; logs, spans and metrics are left out.
pub mod Processing
pub mod Pod
pub mod Queueing
pub mod Heartbeat
pub mod Recovery
pub mod Cancelled
pub mod Examples
use gatew_ai.Base.{
  ℕ, ◌*◌, ◌/◌, Bool, true, false, Option, none, some, String, append, List, [], ◌∷◌, ◌++◌, ltb,
  if◌then◌else◌,
}
use gatew_ai.Base.Int.{ℤ, pos, pos_part}
use gatew_ai.Server.{Server, View}
use gatew_ai.Jobs.{
  Job, JobStatus, Codec, is_terminal_status, job_key, pending_key, processing_key, lease_key,
}
use gatew_ai.Jobs.Records.{Error, not_found, malformed}

-- The arguments of UpdateJobResult; no time stands for one that is not above 0.
pub record RelayResult : Type 0 where
  pub status : JobStatus
  pub result_ref : String
  pub error : String
  pub at : String
  pub processing_time : Option ℕ
  pub prompt_tokens : ℤ
  pub completion_tokens : ℤ

abbrev given_or : Option ℕ → ℕ → ℕ
given_or none old = old
given_or (some new) old = new

-- A count that is not above 0 is skipped.
abbrev counted_tokens : ℤ → ℕ → ℕ
counted_tokens new old = if ltb 0 (pos_part new) then pos_part new else old

abbrev pub reported : Job → RelayResult → Job
reported j o = record j {
  status = o.status;
  result_ref = o.result_ref;
  error = o.error;
  updated_at = o.at;
  processing_time = given_or o.processing_time j.processing_time;
  prompt_tokens = counted_tokens o.prompt_tokens j.prompt_tokens;
  completion_tokens = counted_tokens o.completion_tokens j.completion_tokens;
}

abbrev pub default_ttl_secs : ℕ
default_ttl_secs = 259200

pub data Message : Type 0 where
  published : (id : String) → Message  -- on the channel of the model
  posted : (id : String) → Message  -- to the gateway's completion endpoint

-- Which calls succeed, by their place among the calls of one kind.
pub record Faults : Type 0 where
  pub leases : Bool
  pub reads_job : Bool
  pub updates : ℕ → Bool
  pub publishes : Bool
  pub dones : Bool

-- time.Duration, in nanoseconds.
abbrev pub second : ℕ
second = 1000000000

unfoldable pub refresh_interval : ℕ → ℕ
refresh_interval lease_ttl = let iv = lease_ttl / 3 in if ltb iv second then second else iv

-- LeaseTTLDuration, from the parsed text, if it is a duration above 0.
unfoldable pub lease_ttl_duration : Option ℕ → ℕ
lease_ttl_duration none = 60 * second
lease_ttl_duration (some d) =
    if ltb 0 d then (if ltb d (3 * second) then 3 * second else d) else 60 * second

module _ (server : Server) where
  open server use {Store, view, set, del, lrem, lmove}

  unfoldable pub refresh_lease : String → String → String → ℕ → Store → Store
  refresh_lease model id owner ttl s = set (lease_key model id) owner ttl s

  -- BLMOVE, and the lease; none: the list stayed empty.
  unfoldable pub pop : Faults → String → String → ℕ → Store → Option String × Store
  unfolding refresh_lease
  pop faults model owner ttl s =
      let (id, moved) = lmove (pending_key model) (processing_key model) s in
      elim id [
        | none ↦ (none, moved)
        | some i ↦ (some i, if faults.leases then refresh_lease model i owner ttl moved else moved)
      ]

  unfoldable pub done : String → String → Store → Store
  done model id s = del (lease_key model id) (lrem (processing_key model) id s)

  -- The relay's view: Redis, the object store and what was sent.
  pub record RelayState : Type 0 where
    pub redis : Store
    pub objects : String → Option String
    pub events : List Message

  -- The callback to the gateway is made whatever came of the two steps before it.
  unfoldable pub announced : Faults → String → String → RelayState → RelayState
  unfolding done
  announced faults model id w =
      let sent = if faults.publishes then w.events ++ published id ∷ [] else w.events in
      record w {
        redis = if faults.dones then done model id w.redis else w.redis;
        events = sent ++ posted id ∷ [];
      }

  module _ (codec : Codec) (left : ℕ) where
    open codec use {encode, decode}

    -- The script; `left` is what TTL returns, 0 for none.
    unfoldable pub relay_updated : String → RelayResult → Option Job → Store → Option Error × Store
    relay_updated id o none s = (some malformed, s)
    relay_updated id o (some j) s = if is_terminal_status j.status then (none, s) else (
      none,
      set (job_key id) (encode (reported j o)) (if ltb 0 left then left else default_ttl_secs) s,
    )

    unfoldable pub relay_update : String → RelayResult → Store → Option Error × Store
    unfolding relay_updated
    relay_update id o s = elim ((view s).text (job_key id)) [
      | none ↦ (some not_found, s)
      | some text ↦ relay_updated id o (decode text) s
    ]

    -- The `n`th call of PublishResult for the job.
    unfoldable pub publish_result :
        Faults → ℕ → String → String → RelayResult → RelayState → Bool × RelayState
    unfolding relay_update announced
    publish_result faults n model id o w =
        let (error, after) = relay_update id o w.redis in
        if faults.updates n
        then elim error [
          | some e ↦ (false, w)
          | none ↦ (true, announced faults model id (record w { redis = after }))
        ]
        else (false, w)
