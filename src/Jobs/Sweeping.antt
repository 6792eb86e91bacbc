-- ===== src/Jobs/Sweeping.antt =====
-- storage/redis.go: SweepOrphanedRelayQueueEntries with JobsExistBatch, which takes the ids of jobs without a
-- record out of the relay's lists. Each call of Redis may fail, by an argument.
pub mod Orphans
pub mod Examples
use gatew_ai.Base.{
  ℕ, ◌+◌, Bool, true, false, not, ◌||◌, Option, none, some, String, append, str_eq, List, [], ◌∷◌,
  ◌++◌, ◌==◌, if◌then◌else◌,
}
use gatew_ai.Server.{Server, View, present}
use gatew_ai.Jobs.{job_key, relay_key}

pub record RelayQueueSweepResult : Type 0 where
  pub model : String
  pub state : String
  pub count : ℕ

pub data SweepError : Type 0 where
  unlisted unchecked : SweepError  -- LRANGE, MGET

-- Which calls succeed, by the key of the list.
pub record SweepCalls : Type 0 where
  pub lists : String → Bool
  pub checks : String → Bool
  pub removes : String → String → Bool

abbrev pub sweep_key : String → String → String
sweep_key model state = relay_key model (append ":" state)

-- The lists in the order of the sweep.
unfoldable pub visits : List String → List (String × String)
visits [] = []
visits (m ∷ ms) = (m, "pending") ∷ (m, "processing") ∷ visits ms

abbrev swept_result : String → String → ℕ → List RelayQueueSweepResult
swept_result model state n =
    if n == 0 then [] else record { model = model; state = state; count = n } ∷ []

module _ (server : Server) (calls : SweepCalls) where
  open server use {Store, view, lrem}

  unfoldable pub jobs_exist_batch : Store → String → Bool
  jobs_exist_batch s id = present ((view s).text (job_key id))

  unfoldable pub swept_entry : String → (String → Bool) → String → Store → ℕ × Store
  swept_entry key exists id s =
      if exists id then (0, s) else if calls.removes key id then (1, lrem key id s) else (0, s)

  unfoldable pub swept_entries : String → (String → Bool) → List String → Store → ℕ × Store
  unfolding swept_entry
  swept_entries key exists [] s = (0, s)
  swept_entries key exists (id ∷ ids) s =
      let (n, after) = swept_entry key exists id s in
      let (m, last) = swept_entries key exists ids after in (n + m, last)

  -- The ids of one list; what is looked up is looked up before the first removal.
  unfoldable pub swept_ids :
      String
      → String
      → List String
      → Store
      → (List RelayQueueSweepResult × Option SweepError) × Store
  unfolding swept_entries jobs_exist_batch
  swept_ids model state [] s = (([], none), s)
  swept_ids model state (id ∷ ids) s =
      let key = sweep_key model state in
      if not (calls.checks key)
      then (([], some unchecked), s)
      else let (n, after) = swept_entries key (jobs_exist_batch s) (id ∷ ids) s in
        ((swept_result model state n, none), after)

  unfoldable pub swept_list :
      String → String → Store → (List RelayQueueSweepResult × Option SweepError) × Store
  unfolding swept_ids
  swept_list model state s =
      let key = sweep_key model state in
      if not (calls.lists key)
      then (([], some unlisted), s)
      else swept_ids model state ((view s).list key) s

  unfoldable pub swept :
      List (String × String) → Store → (List RelayQueueSweepResult × Option SweepError) × Store
  unfolding swept_list
  swept [] s = (([], none), s)
  swept ((model, state) ∷ rest) s =
      let ((removed, error), after) = swept_list model state s in
      let ((more, later), last) = swept rest after in
      elim error [ some e ↦ ((removed, some e), after) | none ↦ ((removed ++ more, later), last) ]

  unfoldable pub sweep_orphaned_relay_queue_entries :
      List String → Store → (List RelayQueueSweepResult × Option SweepError) × Store
  unfolding swept visits
  sweep_orphaned_relay_queue_entries models s = swept (visits models) s
