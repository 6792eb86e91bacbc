-- ===== src/Jobs/Reaper/Requeued.antt =====
-- storage/redis.go: what becomes of an abandoned entry of a processing list.
use gatew_ai.Base.{
  str_eq, ap, ℕ, suc, ◌≡◌, sym, ◌∙◌, true, false, none, some, String, eq_refl, ==-ne, ltb, [], ◌∷◌,
  ◌++◌, arith, if◌then◌else◌,
}
use gatew_ai.Server.{Server, remove_first}
use gatew_ai.Jobs.{
  queue_key, Job, Codec, JobTtl, is_terminal_status, pending_key, processing_key, dead_letter_key,
  lease_key, attempts_key,
}
use gatew_ai.Jobs.Records.{update_job_result, stored, patched}
use gatew_ai.Jobs.Records.Terminal.{stored_own, stored_text, list-update, score-update}
use gatew_ai.Jobs.Queue.{has_queue_position}
use gatew_ai.Jobs.Queue.Order.{processing_key-ne}
use gatew_ai.Jobs.Reaper.{
  recorded, reaped, reclaim, requeued, dead_lettered, has, reap_script, ReapResult, requeued_update,
  dead_letter_update, reap_entry,
}
use gatew_ai.Jobs.Reaper.Conservation.{
  list-tried, pending-dead_letter_ne, processing-dead_letter_ne, mode_live,
}

module _ (server : Server) (codec : Codec) (ttls : JobTtl) (at model : String) where
  open server use {Store, view, lrem, rpush, incr, expire, view-lrem, view-rpush}

  script_reclaims :
      (id : String) (max : ℕ) (s : Store)
      → (view s).text (lease_key model id) ≡ none
      → has id ((view s).list (processing_key model)) ≡ true
      → let (outcome, after) = reap_script server model id max reclaim s in
        let n = (view s).counter (attempts_key model id) in
        (outcome ≡ (if ltb n max then requeued else dead_lettered))
        × ((view after).counter (attempts_key model id) ≡ suc n)
        × ((view after).text ≡ (view s).text)
        × ((view after).list (pending_key model) ≡ (
            if ltb n max
            then (view s).list (pending_key model) ++ id ∷ []
            else (view s).list (pending_key model)))
        × ((view after).list (processing_key model)
            ≡ remove_first id ((view s).list (processing_key model)))
  unfolding reap_script
  script_reclaims id max s free there =
      let removed = lrem (processing_key model) id s in
      let tried = expire (attempts_key model id) 86400 (incr (attempts_key model id) removed) in
      let (lists, counts, texts) = list-tried server model id s in
      ground (
        arith,
        free,
        there,
        lists,
        counts,
        texts,
        view-lrem (processing_key model) id s,
        eq_refl (processing_key model),
        eq_refl (pending_key model),
        view-rpush (pending_key model) id tried,
        view-rpush (dead_letter_key model) id tried,
        ==-ne (processing_key model) (pending_key model) (processing_key-ne model),
        ==-ne (pending_key model) (processing_key model) (λ e. processing_key-ne model (sym e)),
        ==-ne (dead_letter_key model) (processing_key model)
            (λ e. processing-dead_letter_ne model (sym e)),
        ==-ne (dead_letter_key model) (pending_key model)
            (λ e. pending-dead_letter_ne model (sym e)),
      )

  -- An entry of the processing list without a lease, of a stored and unfinished job, is taken out of that
  -- list and counted as one more attempt. If fewer attempts than the limit were made before, the id goes to
  -- the end of the pending list and the job is pending again; otherwise the pending list stays as it
  -- is and the job has failed.
  pub reap_entry_abandoned :
      (id : String) (max : ℕ) (j : Job) (res : ReapResult) (s : Store)
      → (view s).text (lease_key model id) ≡ none
      → has id ((view s).list (processing_key model)) ≡ true
      → stored server codec id s ≡ some j
      → is_terminal_status j.status ≡ false
      → let after = (reap_entry server codec ttls at model max id res s).1 in
        let n = (view s).counter (attempts_key model id) in
        let again = ltb n max in
        let waiting = (view s).list (pending_key model) in
        ((view after).list (pending_key model) ≡ (if again then waiting ++ id ∷ [] else waiting))
        × ((view after).list (processing_key model)
            ≡ remove_first id ((view s).list (processing_key model)))
        × ((view after).counter (attempts_key model id) ≡ suc n)
        × (stored server codec id after
            ≡ some (patched j (if again then requeued_update at else dead_letter_update max at)))
  unfolding reap_entry reaped recorded
  reap_entry_abandoned id max j res s free there h u =
      let (outcome, after) = reap_script server model id max reclaim s in
      let (chosen, counted, texts, queued, rest) = script_reclaims id max s free there in
      let kept = stored_text server codec ttls id after s texts ∙ h in
      ground (
        arith,
        free,
        mode_live server model codec ttls at id j s h u,
        chosen,
        counted,
        queued,
        rest,
        stored_own server codec ttls id (requeued_update at) j after kept,
        stored_own server codec ttls id (dead_letter_update max at) j after kept,
        list-update server codec ttls id (requeued_update at) after,
        list-update server codec ttls id (dead_letter_update max at) after,
      )

  -- A stored and unfinished job of a named model, whose entry has no lease and whose attempts are below
  -- the limit, goes back to the end of the pending list and is pending again, but GetQueuePosition
  -- finds no position for it.
  pub has_queue_position-reap_entry :
      (id : String) (max : ℕ) (j : Job) (res : ReapResult) (s : Store)
      → (view s).text (lease_key model id) ≡ none
      → has id ((view s).list (processing_key model)) ≡ true
      → stored server codec id s ≡ some j
      → is_terminal_status j.status ≡ false
      → j.model ≡ model
      → str_eq model "" ≡ false
      → ltb ((view s).counter (attempts_key model id)) max ≡ true
      → let after = (reap_entry server codec ttls at model max id res s).1 in
        ((view after).list (pending_key model) ≡ (view s).list (pending_key model) ++ id ∷ [])
        × (stored server codec id after ≡ some (patched j (requeued_update at)))
        × (has_queue_position server id model after ≡ false)
  unfolding reap_entry reaped recorded has_queue_position
  has_queue_position-reap_entry id max j res s free there h u same named few =
      let (outcome, after) = reap_script server model id max reclaim s in
      let (chosen, counted, texts, queued, rest) = script_reclaims id max s free there in
      let kept = stored_text server codec ttls id after s texts ∙ h in
      let unscored =
        score-update server codec ttls id (requeued_update at) j after kept u
          (ap (λ m. str_eq m "") same ∙ named) in
      let where_it_was =
        ap
          (λ m.
            (view (update_job_result server codec ttls id (requeued_update at) after).1).score
              (queue_key m) id)
          same in
      let (pending_again, kept_list, count, status) =
        reap_entry_abandoned id max j res s free there h u in
      (
        pending_again ∙ ground (arith, few),
        status ∙ ground (arith, few),
        ground (
          arith,
          few,
          free,
          mode_live server model codec ttls at id j s h u,
          chosen,
          sym where_it_was ∙ unscored,
        ),
      )
