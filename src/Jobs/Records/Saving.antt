-- ===== src/Jobs/Records/Saving.antt =====
-- storage/redis.go: what SaveJob leaves in the store.
use gatew_ai.Base.{
  ℕ, suc, ◌-◌, ◌<◌, ◌≡◌, ◌≢◌, refl, sym, ◌∙◌, none, some, String, eq_iff, eq_refl, ==-ne, prefix-ne,
  List, [], ◌∷◌, ◌++◌, arith, if◌then◌else◌,
}
use gatew_ai.Server.{Server}
use gatew_ai.Jobs.{
  Job, JobStatus, Codec, JobTtl, ttl_for_status, job_key, job_meta_key, consumer_key, queue_key,
  pending_key,
}
use gatew_ai.Jobs.Records.{consumer_indexed, relayed, tombstoned, save_job, get_job}

positive : (c : JobTtl) (status : JobStatus) → 0 < ttl_for_status c status
unfolding ttl_for_status
positive c status = ground arith

-- A status always has a time to live.
pub ttl_for_status_pos :
    (c : JobTtl) (status : JobStatus) → (n : ℕ) × (ttl_for_status c status ≡ suc n)
ttl_for_status_pos c status = (ttl_for_status c status - 1, omega (arith, positive c status))

meta_key-ne : (id k : String) → job_meta_key id ≢ job_key k
meta_key-ne id k e =
    prefix-ne "job:" "jobm" "eta:" k id refl (ground (arith, eq_iff "job:" "jobm")) (sym e)

module _ (server : Server) (codec : Codec) where
  open server use {
    Store, view, set, expire, zadd, view-set, view-zadd, view-expire, view-lpush, view-rpush,
  }
  open codec use {encode, decode, decode-encode}

  view-indexed :
      (j : Job) (n : ℕ) (s : Store)
      → ((view (consumer_indexed server codec j (suc n) s)).text ≡ (view s).text)
        × ((view (consumer_indexed server codec j (suc n) s)).list ≡ (view s).list)
  unfolding consumer_indexed
  view-indexed j n s =
      let key = consumer_key j.consumer_name in
      ground
        (arith, view-zadd key j.created_at j.id s, view-expire key n (zadd key j.created_at j.id s))

  -- Where the job stands in the relay's queue.
  abbrev pub enqueued : Job → List String → List String
  enqueued j ids = if j.priority then j.id ∷ ids else ids ++ j.id ∷ []

  view-relayed :
      (j : Job) (s : Store)
      → ((view (relayed server codec j s)).text ≡ (view s).text)
        × ((view (relayed server codec j s)).list (pending_key j.model)
            ≡ enqueued j ((view s).list (pending_key j.model)))
  unfolding relayed
  view-relayed j s = ground (
    arith,
    view-lpush (pending_key j.model) j.id s,
    view-rpush (pending_key j.model) j.id s,
    eq_refl (pending_key j.model),
  )

  view-tombstoned :
      (j : Job) (n : ℕ) (s : Store) (id : String)
      → ((view (tombstoned server codec j n s)).text (job_key id) ≡ (view s).text (job_key id))
        × ((view (tombstoned server codec j n s)).list ≡ (view s).list)
  unfolding tombstoned
  view-tombstoned j n s id = ground (
    arith,
    view-set (job_meta_key j.id) j.service_type n s,
    ==-ne (job_meta_key j.id) (job_key id) (meta_key-ne j.id id),
  )

  -- A saved job is read back as it was saved, and stands in its model's queue: at the head if it has
  -- priority, and at the end otherwise.
  pub get_job-save_job :
      (ttls : JobTtl) (marker_ttl : ℕ) (j : Job) (s : Store)
      → let after = save_job server codec ttls marker_ttl j s in
        (get_job server codec j.id after ≡ (some j, none))
        × ((view after).list (pending_key j.model)
            ≡ enqueued j ((view s).list (pending_key j.model)))
  unfolding get_job save_job
  get_job-save_job ttls marker_ttl j s =
      let (n, e) = ttl_for_status_pos ttls j.status in
      let recorded = set (job_key j.id) (encode j) (suc n) s in
      let scored = zadd (queue_key j.model) j.created_at j.id recorded in
      let queued = expire (queue_key j.model) (suc n) scored in
      let indexed = consumer_indexed server codec j (suc n) queued in
      let in_relay = relayed server codec j indexed in
      let (text₁, list₁) = view-indexed j n queued in
      let (text₂, list₂) = view-relayed j indexed in
      let (text₃, list₃) = view-tombstoned j marker_ttl in_relay j.id in
      let viewed =
        view-expire (queue_key j.model) n scored
        ∙ view-zadd (queue_key j.model) j.created_at j.id recorded in
      rw e (
        ground (
          arith,
          text₁,
          list₁,
          text₂,
          list₂,
          text₃,
          list₃,
          viewed,
          view-set (job_key j.id) (encode j) (suc n) s,
          eq_refl (job_key j.id),
          decode-encode j,
        ))

  text-indexed :
      (j : Job) (n : ℕ) (s : Store)
      → (view (consumer_indexed server codec j (suc n) s)).text ≡ (view s).text
  unfolding consumer_indexed
  text-indexed j n s =
      let key = consumer_key j.consumer_name in
      ground
        (arith, view-zadd key j.created_at j.id s, view-expire key n (zadd key j.created_at j.id s))

  text-relayed : (j : Job) (s : Store) → (view (relayed server codec j s)).text ≡ (view s).text
  unfolding relayed
  text-relayed j s =
      ground
        (arith, view-lpush (pending_key j.model) j.id s, view-rpush (pending_key j.model) j.id s)

  -- Saving a job leaves the texts at other keys than its own two.
  pub text-save_job :
      (ttls : JobTtl) (marker_ttl : ℕ) (j : Job) (s : Store) (k : String)
      → job_key j.id ≢ k
      → job_meta_key j.id ≢ k
      → (view (save_job server codec ttls marker_ttl j s)).text k ≡ (view s).text k
  unfolding save_job tombstoned
  text-save_job ttls marker_ttl j s k h g =
      let (n, e) = ttl_for_status_pos ttls j.status in
      let recorded = set (job_key j.id) (encode j) (suc n) s in
      let scored = zadd (queue_key j.model) j.created_at j.id recorded in
      let queued = expire (queue_key j.model) (suc n) scored in
      let indexed = consumer_indexed server codec j (suc n) queued in
      let in_relay = relayed server codec j indexed in
      rw e (
        ground (
          arith,
          text-indexed j n queued,
          text-relayed j indexed,
          view-expire (queue_key j.model) n scored,
          view-zadd (queue_key j.model) j.created_at j.id recorded,
          view-set (job_key j.id) (encode j) (suc n) s,
          view-set (job_meta_key j.id) j.service_type marker_ttl in_relay,
          ==-ne (job_key j.id) k h,
          ==-ne (job_meta_key j.id) k g,
        ))
