-- ===== src/Relay/Processing/Settling.antt =====
-- relay.go: a job that is processed is settled, or left as it was.
use gatew_ai.Base.{
  ℕ, ◌≡◌, ◌≢◌, ◌⊎◌, refl, sym, ap, ◌∙◌, true, false, ◌||◌, Option, none, some, String, append,
  eq_iff, eq_refl, ==-ne, prefix-ne, arith, Bool-cases, Option-cases, inl, inr, update,
}
use gatew_ai.Server.{Server}
use gatew_ai.Jobs.{Job, Codec, is_terminal_status, job_key, processing_key, lease_key}
use gatew_ai.Jobs.Records.{stored}
use gatew_ai.Relay.{
  RelayResult, reported, Faults, RelayState, done, announced, relay_updated, relay_update,
  publish_result, default_ttl_secs,
}
use gatew_ai.Relay.Processing.{
  Failure, canceled, infrastructure, Fetched, Surroundings, result, broken, body, missing,
  unfetched, completed_result, failure_result, result_key, get_object, delete_input, give_up,
  inference_failed, announce_completed, stored_result, put_failure, finish, second_answer,
  second_try, first_answer, first_try, process,
}

pub job-lease_ne : (id model other : String) → job_key id ≢ lease_key model other
job-lease_ne id model other =
    prefix-ne "job:" "rela" "y:" id _ refl (ground (arith, eq_iff "job:" "rela"))

module _ (server : Server) (codec : Codec) (left : ℕ) where
  open server use {Store, view, set, del, lrem, view-set, view-del, view-lrem}
  open codec use {encode, decode, decode-encode}

  -- An update that reaches Redis is written to the record of an unfinished job.
  pub relay_update_lem :
      (id : String) (o : RelayResult) (j : Job) (s : Store)
      → stored server codec id s ≡ some j
      → is_terminal_status j.status ≡ false
      → ((relay_update server codec left id o s).0 ≡ none)
        × (stored server codec id (relay_update server codec left id o s).1 ≡ some (reported j o))
  unfolding stored relay_update relay_updated
  relay_update_lem id o j s h u = elim (Option-cases ((view s).text (job_key id))) [
    | inl e ↦ ground (arith, e, h)
    | inr (t, e) ↦ ground (
      arith,
      e,
      h,
      u,
      view-set (job_key id) (encode (reported j o)) left s,
      view-set (job_key id) (encode (reported j o)) default_ttl_secs s,
      eq_refl (job_key id),
      decode-encode (reported j o),
    )
  ]

  stored-done :
      (model id : String) (s : Store)
      → stored server codec id (done server model id s) ≡ stored server codec id s
  unfolding stored done
  stored-done model id s = ground (
    arith,
    view-del (lease_key model id) (lrem (processing_key model) id s),
    view-lrem (processing_key model) id s,
    ==-ne (lease_key model id) (job_key id) (λ e. job-lease_ne id model id (sym e)),
  )

  stored-announced :
      (faults : Faults) (model id : String) (w : RelayState server)
      → (stored server codec id (announced server faults model id w).redis
          ≡ stored server codec id w.redis)
        × ((announced server faults model id w).objects ≡ w.objects)
  unfolding announced
  stored-announced faults model id w = ground (arith, stored-done model id w.redis)

  module _ (faults : Faults) (model : String) where
    -- The world after a result was published.
    abbrev pub told : String → RelayResult → RelayState server → RelayState server
    told id o w =
        announced server faults model id
          (record w { redis = (relay_update server codec left id o w.redis).1 })

    pub published_up :
        (n : ℕ) (id : String) (o : RelayResult) (j : Job) (w : RelayState server)
        → stored server codec id w.redis ≡ some j
        → is_terminal_status j.status ≡ false
        → faults.updates n ≡ true
        → (publish_result server codec left faults n model id o w ≡ (true, told id o w))
          × (stored server codec id (told id o w).redis ≡ some (reported j o))
          × ((told id o w).objects ≡ w.objects)
    unfolding publish_result
    published_up n id o j w h u e =
        let (fine, written) = relay_update_lem id o j w.redis h u in
        let after : RelayState server = record w {
          redis = (relay_update server codec left id o w.redis).1;
        } in
        let (same, objects) = stored-announced faults model id after in
        (rw (e, fine) refl, same ∙ written, objects)

    pub published_down :
        (n : ℕ) (id : String) (o : RelayResult) (w : RelayState server)
        → faults.updates n ≡ false
        → publish_result server codec left faults n model id o w ≡ (false, w)
    unfolding publish_result
    published_down n id o w e = rw e refl

module _ (server : Server) (codec : Codec) (left : ℕ) (faults : Faults) (inference : Surroundings)
    (model at : String) where
  -- Nothing is changed and the error is escalated; or the job is completed and its result is in the
  -- object store; or the job has failed for good.
  abbrev pub IsSettled : Job → RelayState server → Option Failure × RelayState server → Type 0
  IsSettled j w answer =
      ((answer.0 ≢ none) × (answer.1 ≡ w))
      ⊎ (((text : String) × (answer.0 ≡ none)
            × (stored server codec j.id answer.1.redis
                ≡ some (reported j (completed_result inference j.id text at)))
            × (answer.1.objects (result_key j.id) ≡ some text))
          ⊎ ((reason : String) × (answer.0 ≡ none)
              × (stored server codec j.id answer.1.redis
                  ≡ some (reported j (failure_result reason at)))))

  pub deleted :
      (key : String) (w : RelayState server)
      → let after = delete_input server codec left faults inference model at key w in
        (after.redis ≡ w.redis) × ((k : String) → key ≢ k → after.objects k ≡ w.objects k)
  unfolding delete_input
  deleted key w = elim (Bool-cases inference.deletes) [
    | inl d ↦ rw d (refl, λ k ne. rw (==-ne key k ne) refl)
    | inr d ↦ rw d (refl, λ k ne. refl)
  ]

  module _ (j : Job) (w : RelayState server) (is_stored : stored server codec j.id w.redis ≡ some j)
      (unfinished : is_terminal_status j.status ≡ false)
      (reached : (faults.updates 0 || faults.updates 1) ≡ true)
      (apart : j.input_ref ≢ result_key j.id) where
    escalated : (e : Failure) → IsSettled j w (some e, w)
    escalated e = inl (λ q. ground (arith, q), refl)

    give_up-IsSettled :
        (reason : String)
        → IsSettled j w (give_up server codec left faults inference model at j.id reason w)
    unfolding give_up
    give_up-IsSettled reason =
        let o = failure_result reason at in
        elim (Bool-cases (faults.updates 0)) [
          | inr e ↦
              rw (published_down server codec left faults model 0 j.id o w e)
                (escalated infrastructure)
          | inl e ↦
              let (same, written, objects) =
                published_up server codec left faults model 0 j.id o j w is_stored unfinished e in
              rw same (inr (inr (reason, refl, written)))
        ]

    failed_world :
        (text : String)
        → faults.updates 0 ≡ true
        → let o = failure_result (append "inference: " text) at in
          inference_failed server codec left faults inference model at j text w ≡ (
            none,
            delete_input server codec left faults inference model at j.input_ref
                (told server codec left faults model j.id o w),
          )
    unfolding inference_failed give_up
    failed_world text e =
        let o = failure_result (append "inference: " text) at in
        let (same, written, objects) =
          published_up server codec left faults model 0 j.id o j w is_stored unfinished e in
        ground (arith, same)

    failed_unreached :
        (text : String)
        → faults.updates 0 ≡ false
        → inference_failed server codec left faults inference model at j text w
          ≡ (some infrastructure, w)
    unfolding inference_failed give_up
    failed_unreached text e =
        let o = failure_result (append "inference: " text) at in
        ground (arith, published_down server codec left faults model 0 j.id o w e)

    failed-IsSettled :
        (text : String)
        → IsSettled j w (inference_failed server codec left faults inference model at j text w)
    failed-IsSettled text =
        let reason = append "inference: " text in
        let o = failure_result reason at in
        let after = told server codec left faults model j.id o w in
        elim (Bool-cases (faults.updates 0)) [
          | inr e ↦ rw (failed_unreached text e) (escalated infrastructure)
          | inl e ↦
              let (same, written, objects) =
                published_up server codec left faults model 0 j.id o j w is_stored unfinished e in
              let redis = (deleted j.input_ref after).0 in
              rw (failed_world text e)
                (inr (inr (reason, refl, ap (stored server codec j.id) redis ∙ written)))
        ]

    -- The result is kept when the input is deleted.
    completed-IsSettled :
        (text : String) (after : RelayState server)
        → stored server codec j.id after.redis
          ≡ some (reported j (completed_result inference j.id text at))
        → after.objects ≡ update (result_key j.id) (some text) w.objects
        → IsSettled j w
            (none, delete_input server codec left faults inference model at j.input_ref after)
    completed-IsSettled text after h o =
        let (redis, kept) = deleted j.input_ref after in
        inr (
          inl (
            text,
            refl,
            ap (stored server codec j.id) redis ∙ h,
            kept (result_key j.id) apart
                ∙ ap (λ (f : String → Option String). f (result_key j.id)) o
                ∙ rw (eq_refl (result_key j.id)) refl,
          ))

    announced_after :
        (text : String)
        → let put = stored_result server codec left faults inference model at j text w in
          let after = announce_completed server codec left faults inference model at j text put in
          (stored server codec j.id after.redis
            ≡ some (reported j (completed_result inference j.id text at)))
          × (after.objects ≡ update (result_key j.id) (some text) w.objects)
    unfolding announce_completed stored_result
    announced_after text =
        let put = stored_result server codec left faults inference model at j text w in
        let o = completed_result inference j.id text at in
        elim (Bool-cases (faults.updates 0)) [
          | inl e ↦
              let (same, written, objects) =
                published_up server codec left faults model 0 j.id o j put is_stored unfinished e in
              rw same (written, objects)
          | inr e ↦
              let (same, written, objects) =
                published_up server codec left faults model 1 j.id o j put is_stored unfinished
                  (ground (arith, e, reached)) in
              rw (published_down server codec left faults model 0 j.id o put e, same)
                (written, objects)
        ]

    finish-IsSettled :
        (text : String)
        → IsSettled j w (finish server codec left faults inference model at j text w)
    unfolding finish
    finish-IsSettled text =
        let (written, objects) = announced_after text in
        elim (Option-cases (put_failure server codec left faults inference model at)) [
          | inl e ↦ rw (finish, e) (completed-IsSettled text _ written objects)
          | inr (f, e) ↦ rw (finish, e) (escalated f)
        ]

    second-IsSettled :
        (f : Fetched) → IsSettled j w (second_try server codec left faults inference model at j f w)
    unfolding second_try second_answer
    second-IsSettled (unfetched e) = escalated e
    second-IsSettled missing = give_up-IsSettled _
    second-IsSettled (body text) =
        elim (inference.call 1 j text)
          as (λ i.
            IsSettled j w (second_answer server codec left faults inference model at j i w)) [
              | result r ↦ finish-IsSettled r
              | broken c r ↦ failed-IsSettled r
            ]

    first-IsSettled :
        (f : Fetched) → IsSettled j w (first_try server codec left faults inference model at j f w)
    unfolding first_try first_answer
    first-IsSettled (unfetched e) = escalated e
    first-IsSettled missing = give_up-IsSettled _
    first-IsSettled (body text) =
        elim (inference.call 0 j text)
          as (λ i. IsSettled j w (first_answer server codec left faults inference model at j i w)) [
            | result r ↦ finish-IsSettled r
            | broken c r ↦
                let again =
                  second-IsSettled
                    (get_object server codec left faults inference model at 1 j.input_ref w) in
                elim (Bool-cases c) [ inl e ↦ rw e (escalated canceled) | inr e ↦ rw e again ]
          ]

    -- Processing a stored and unfinished job, where one of the two updates of its record would succeed and the
    -- input is not stored under the key of the result: an error that is escalated changes nothing;
    -- without one, the job is completed with its result in the object store, or has failed for good.
    pub process-IsSettled : IsSettled j w (process server codec left faults inference model at j w)
    unfolding process
    process-IsSettled =
        first-IsSettled (get_object server codec left faults inference model at 0 j.input_ref w)
