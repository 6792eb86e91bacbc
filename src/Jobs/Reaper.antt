-- ===== src/Jobs/Reaper.antt =====
-- storage/redis.go: ReapOrphanedProcessingJobs. The models are those of the processing lists that SCAN
-- finds. The server answers; a record that does not decode is skipped.
pub mod Conservation
pub mod Requeued
use gatew_ai.Base.{
  ℕ, zero, suc, ◌/◌, ◌%◌, ◌≡◌, Bool, true, false, Option, none, some, String, str_eq, append, leb,
  ltb, List, [], ◌∷◌, if◌then◌else◌,
}
use gatew_ai.Server.{Server, View, present}
use gatew_ai.Jobs.{
  Job, JobStatus, pending, failed, Codec, JobTtl, is_terminal_status, job_key, pending_key,
  processing_key, dead_letter_key, lease_key, attempts_key,
}
use gatew_ai.Jobs.Records.{Outcome, update_job_result}

pub data Mode : Type 0 where
  reclaim drop_entry : Mode

pub data ReapOutcome : Type 0 where
  alive gone dropped requeued dead_lettered : ReapOutcome

pub record ReapResult : Type 0 where
  pub requeued_count : ℕ
  pub dead_lettered_count : ℕ
  pub dropped_count : ℕ

abbrev pub has : String → List String → Bool
has x [] = false
has x (y ∷ ys) = if str_eq y x then true else has x ys

abbrev pub requeued_update : String → Outcome
requeued_update at = record { status = pending; result_ref = ""; error = ""; at = at }

abbrev digit : ℕ → String
digit zero = "0"
digit (suc zero) = "1"
digit (suc (suc zero)) = "2"
digit (suc (suc (suc zero))) = "3"
digit (suc (suc (suc (suc zero)))) = "4"
digit (suc (suc (suc (suc (suc zero))))) = "5"
digit (suc (suc (suc (suc (suc (suc zero)))))) = "6"
digit (suc (suc (suc (suc (suc (suc (suc zero))))))) = "7"
digit (suc (suc (suc (suc (suc (suc (suc (suc zero)))))))) = "8"
digit n = "9"

-- `%d`, with as many steps as digits at most.
abbrev pub decimal : ℕ → ℕ → String
decimal zero n = ""
decimal (suc steps) n =
    let front = decimal steps (n / 10) in
    if ltb n 10 then digit n else append front (digit (n % 10))

abbrev pub dead_letter_update : ℕ → String → Outcome
dead_letter_update max_attempts at = record {
  status = failed;
  result_ref = "";
  error =
      append "relay worker died before completion; exceeded "
        (append (decimal (suc max_attempts) max_attempts) " requeue attempts");
  at = at;
}

module _ (server : Server) where
  open server use {Store, view, lrem, rpush, incr, expire}

  -- 24 hours.
  attempts_ttl : ℕ
  attempts_ttl = 86400

  -- The script: the lease is looked at again, and LREM tells whether the entry was there.
  unfoldable pub reap_script : String → String → ℕ → Mode → Store → ReapOutcome × Store
  unfolding attempts_ttl
  reap_script model id max_attempts mode s =
      let removed = lrem (processing_key model) id s in
      let key = attempts_key model id in
      let tried = expire key attempts_ttl (incr key removed) in
      if present ((view s).text (lease_key model id))
      then (alive, s)
      else if has id ((view s).list (processing_key model))
      then elim mode [
        | drop_entry ↦ (dropped, removed)
        | reclaim ↦
            if ltb max_attempts ((view tried).counter key)
            then (dead_lettered, rpush (dead_letter_key model) id tried)
            else (requeued, rpush (pending_key model) id tried)
      ]
      else (gone, s)

  module _ (codec : Codec) (ttls : JobTtl) (at : String) where
    -- What is counted and written for an outcome.
    recorded : ℕ → String → ReapOutcome → ReapResult → Store → ReapResult × Store
    recorded max_attempts id requeued res s = (
      record res { requeued_count = suc res.requeued_count },
      (update_job_result server codec ttls id (requeued_update at) s).1,
    )
    recorded max_attempts id dead_lettered res s = (
      record res { dead_lettered_count = suc res.dead_lettered_count },
      (update_job_result server codec ttls id (dead_letter_update max_attempts at) s).1,
    )
    recorded max_attempts id dropped res s =
        (record res { dropped_count = suc res.dropped_count }, s)
    recorded max_attempts id alive res s = (res, s)
    recorded max_attempts id gone res s = (res, s)

    -- A record that is gone or terminal is dropped; one that cannot be read is left alone.
    pub mode_of : Option String → Option Mode
    mode_of none = some drop_entry
    mode_of (some text) = elim (codec.decode text) [
      | none ↦ none
      | some j ↦ some (if is_terminal_status j.status then drop_entry else reclaim)
    ]

    reaped : String → ℕ → String → Option Mode → ReapResult → Store → ReapResult × Store
    unfolding recorded
    reaped model max_attempts id none res s = (res, s)
    reaped model max_attempts id (some mode) res s =
        let (outcome, after) = reap_script model id max_attempts mode s in
        recorded max_attempts id outcome res after

    unfoldable pub reap_entry : String → ℕ → String → ReapResult → Store → ReapResult × Store
    unfolding mode_of reaped
    reap_entry model max_attempts id res s =
        if present ((view s).text (lease_key model id))
        then (res, s)
        else reaped model max_attempts id (mode_of ((view s).text (job_key id))) res s

    -- The ids of a list that was read before.
    reap_entries : String → ℕ → List String → ReapResult → Store → ReapResult × Store
    reap_entries model max_attempts [] res s = (res, s)
    reap_entries model max_attempts (id ∷ ids) res s =
        let (res', after) = reap_entry model max_attempts id res s in
        reap_entries model max_attempts ids res' after

    reap_models : List String → ℕ → ReapResult → Store → ReapResult × Store
    unfolding reap_entries
    reap_models [] max_attempts res s = (res, s)
    reap_models (model ∷ models) max_attempts res s =
        let ids = (view s).list (processing_key model) in
        let (res', after) = reap_entries model max_attempts ids res s in
        reap_models models max_attempts res' after

    unfoldable pub reap_orphaned_processing_jobs : List String → ℕ → Store → ReapResult × Store
    unfolding reap_models
    reap_orphaned_processing_jobs models max_attempts s =
        reap_models models (if ltb 0 max_attempts then max_attempts else 3)
          (record { requeued_count = 0; dead_lettered_count = 0; dropped_count = 0 }) s
