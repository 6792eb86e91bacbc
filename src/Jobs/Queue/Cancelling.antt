-- ===== src/Jobs/Queue/Cancelling.antt =====
-- storage/redis.go: MarkJobCancelled.
use gatew_ai.Base.{◌≡◌, ap, none, some, String, eq_refl, arith}
use gatew_ai.Server.{Server, View, remove_first}
use gatew_ai.Jobs.{Job, Codec, JobTtl, pending_key}
use gatew_ai.Jobs.Records.{stored, update_job_result}
use gatew_ai.Jobs.Records.Terminal.{settled, stored_own, stored_text, list-update}
use gatew_ai.Jobs.Queue.{cancelled_by_client, mark_job_cancelled}

module _ (server : Server) (codec : Codec) (ttls : JobTtl) where
  open server use {Store, view, lrem, view-lrem}

  -- Cancelling a stored job gives no error, marks it as cancelled unless it is already terminal, and
  -- takes it out of the list of its model that relays receive from.
  pub stored-mark_job_cancelled :
      (id model at : String) (j : Job) (s : Store)
      → stored server codec id s ≡ some j
      → let answer = mark_job_cancelled server codec ttls id model at s in
        (answer.0 ≡ none)
        × (stored server codec id answer.1 ≡ some (settled j (cancelled_by_client at)))
        × ((view answer.1).list (pending_key model)
            ≡ remove_first id ((view s).list (pending_key model)))
  unfolding mark_job_cancelled
  stored-mark_job_cancelled id model at j s h =
      let o = cancelled_by_client at in
      let (settles, clear) = stored_own server codec ttls id o j s h in
      let after = (update_job_result server codec ttls id o s).1 in
      let removed = view-lrem (pending_key model) id after in
      let kept =
        stored_text server codec ttls id (lrem (pending_key model) id after) after
          (ap (λ (v : View). v.text) removed) in
      ground (
        arith,
        settles,
        clear,
        removed,
        kept,
        (list-update server codec ttls id o s).0,
        eq_refl (pending_key model),
      )
