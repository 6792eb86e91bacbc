-- ===== src/Relay/Queueing.antt =====
-- relay.go and redis.go: the queue that the relay and the gateway share.
use gatew_ai.Base.{ℕ, ◌≡◌, refl, true, false, some, String, str_eq, arith, Option-cases, inl, inr}
use gatew_ai.Server.{Server}
use gatew_ai.Jobs.{Job, Codec, JobTtl, is_terminal_status, job_key, processing_key, lease_key}
use gatew_ai.Jobs.Records.{Outcome, stored, update_job_result}
use gatew_ai.Jobs.Records.Terminal.{score-update}
use gatew_ai.Jobs.Queue.{has_queue_position}
use gatew_ai.Relay.{
  RelayResult, reported, Faults, RelayState, done, announced, relay_updated, relay_update,
  publish_result, default_ttl_secs,
}
use gatew_ai.Relay.Processing.Settling.{told, published_up}

module _ (server : Server) (codec : Codec) (left : ℕ) where
  open server use {Store, view, set, del, lrem, view-set, view-del, view-lrem}

  score-relay_update :
      (id : String) (o : RelayResult) (s : Store)
      → (view (relay_update server codec left id o s).1).score ≡ (view s).score
  unfolding relay_update relay_updated
  score-relay_update id o s = elim (Option-cases ((view s).text (job_key id))) [
    | inl e ↦ ground (arith, e)
    | inr (t, e) ↦ elim (Option-cases (codec.decode t)) [
      | inl bad ↦ ground (arith, e, bad)
      | inr (j, good) ↦ ground (
        arith,
        e,
        good,
        view-set (job_key id) (codec.encode (reported j o)) left s,
        view-set (job_key id) (codec.encode (reported j o)) default_ttl_secs s,
      )
    ]
  ]

  score-told :
      (faults : Faults) (model id : String) (o : RelayResult) (w : RelayState server)
      → (view (told server codec left faults model id o w).redis).score ≡ (view w.redis).score
  unfolding announced done
  score-told faults model id o w =
      let after = (relay_update server codec left id o w.redis).1 in
      ground (
        arith,
        score-relay_update id o w.redis,
        view-del (lease_key model id) (lrem (processing_key model) id after),
        view-lrem (processing_key model) id after,
      )

  -- A job that is finished by its relay keeps its position in the queue, which GetQueuePosition finds as
  -- before; the same job, finished by the gateway's own update, has none.
  pub has_queue_position-publish_result :
      (ttls : JobTtl) (faults : Faults) (n : ℕ) (id : String) (o : RelayResult) (own : Outcome)
      (j : Job) (w : RelayState server)
      → stored server codec id w.redis ≡ some j
      → is_terminal_status j.status ≡ false
      → str_eq j.model "" ≡ false
      → faults.updates n ≡ true
      → has_queue_position server id j.model w.redis ≡ true
      → let (done, after) = publish_result server codec left faults n j.model id o w in
        (done ≡ true)
        × (stored server codec id after.redis ≡ some (reported j o))
        × (has_queue_position server id j.model after.redis ≡ true)
        × (has_queue_position server id j.model
              (update_job_result server codec ttls id own w.redis).1
            ≡ false)
  unfolding has_queue_position
  has_queue_position-publish_result ttls faults n id o own j w h u named up there =
      let (same, written, objects) =
        published_up server codec left faults j.model n id o j w h u up in
      let scores = score-told faults j.model id o w in
      let gone = score-update server codec ttls id own j w.redis h u named in
      rw (same) (refl, written, rw scores there, rw gone refl)
