-- ===== src/Relay/Pod.antt =====
-- relay/cmd/relay/main.go: the life of a pod from the job that it pops on.
pub mod Dying
use gatew_ai.Base.{ℕ, Bool, true, false, Option, none, some, String, if◌then◌else◌}
use gatew_ai.Server.{Server}
use gatew_ai.Jobs.{Job, JobStatus, cancelled, Codec}
use gatew_ai.Jobs.Records.{get_job}
use gatew_ai.Relay.{Faults, RelayState, pop, done}
use gatew_ai.Relay.Processing.{Failure, canceled, infrastructure, Surroundings, process}

pub data Exit : Type 0 where
  no_job ended fatal : Exit  -- without a job; 0; os.Exit(1)

abbrev is_cancelled : JobStatus → Bool
is_cancelled cancelled = true
is_cancelled s = false

module _ (server : Server) (codec : Codec) (left : ℕ) (faults : Faults) (inference : Surroundings)
    (model at owner : String) (lease_ttl : ℕ) where
  abbrev PodWorld : Type 0
  PodWorld = RelayState server

  -- A Done that fails is only logged.
  unfoldable pub left_processing : String → PodWorld → PodWorld
  left_processing id w = record w {
    redis = if faults.dones then done server model id w.redis else w.redis;
  }

  exit_of : String → Option Failure → PodWorld → Exit × PodWorld
  unfolding left_processing
  exit_of id none w = (ended, w)
  exit_of id (some canceled) w = (ended, left_processing id w)
  exit_of id (some infrastructure) w = (fatal, w)

  unfoldable pub ran : String → Option Job → PodWorld → Exit × PodWorld
  unfolding exit_of left_processing
  ran id none w = (fatal, w)
  ran id (some job) w =
      let (error, after) = process server codec left faults inference model at job w in
      if is_cancelled job.status then (ended, left_processing id w) else exit_of id error after

  -- From the popped id on; a record that cannot be read is fatal.
  unfoldable pub handled : String → PodWorld → Exit × PodWorld
  unfolding ran
  handled id w =
      let (job, error) = get_job server codec id w.redis in
      if faults.reads_job then ran id job w else (fatal, w)

  unfoldable pub pod : PodWorld → Exit × PodWorld
  unfolding handled
  pod w =
      let (id, popped) = pop server faults model owner lease_ttl w.redis in
      let w' : PodWorld = record w { redis = popped } in
      elim id [ none ↦ (no_job, w') | some i ↦ handled i w' ]
