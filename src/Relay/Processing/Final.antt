-- ===== src/Relay/Processing/Final.antt =====
-- relay.go: what a relay reports does not touch a record that is final, of its job or of another.
use gatew_ai.Base.{
  ℕ, ◌≡◌, sym, ap, ◌∙◌, true, some, String, append, ==-ne, ==-cases, arith, Bool-cases,
  Option-cases, inl, inr,
}
use gatew_ai.Server.{Server}
use gatew_ai.Jobs.{Job, Codec, is_terminal_status, job_key, lease_key, processing_key}
use gatew_ai.Jobs.Records.{stored}
use gatew_ai.Jobs.Records.Terminal.{job_key-ne}
use gatew_ai.Relay.{
  RelayResult, reported, Faults, RelayState, done, announced, relay_updated, relay_update,
  publish_result, default_ttl_secs,
}
use gatew_ai.Relay.Processing.{
  Fetched, Surroundings, result, broken, body, missing, unfetched, completed_result, failure_result,
  delete_input, get_object, give_up, inference_failed, announce_completed, stored_result,
  put_failure, finish, second_answer, second_try, first_answer, first_try, process,
}
use gatew_ai.Relay.Processing.Settling.{deleted, job-lease_ne}

module _ (server : Server) (codec : Codec) (left : ℕ) (id : String) (j : Job)
    (over : is_terminal_status j.status ≡ true) where
  open server use {Store, view, view-set, lrem, view-lrem, view-del}
  open codec use {encode, decode}

  abbrev pub IsFinal : Store → Type 0
  IsFinal s = stored server codec id s ≡ some j

  update-IsFinal :
      (i : String) (o : RelayResult) (s : Store)
      → IsFinal s
      → IsFinal (relay_update server codec left i o s).1
  unfolding relay_update relay_updated stored
  update-IsFinal i o s h = elim (Option-cases ((view s).text (job_key i))) [
    | inl e ↦ ground (arith, e, h)
    | inr (text, e) ↦ elim (Option-cases (decode text)) [
      | inl f ↦ ground (arith, e, f, h)
      | inr (k, f) ↦ elim (==-cases i id) [
        | inl (same, t) ↦ ground (arith, e, f, h, over, same)
        | inr (other, t) ↦ ground (
          arith,
          e,
          f,
          h,
          view-set (job_key i) (encode (reported k o)) left s,
          view-set (job_key i) (encode (reported k o)) default_ttl_secs s,
          ==-ne (job_key i) (job_key id) (job_key-ne i id other),
        )
      ]
    ]
  ]

  done-IsFinal : (model i : String) (s : Store) → IsFinal s → IsFinal (done server model i s)
  unfolding done stored
  done-IsFinal model i s h = ground (
    arith,
    h,
    view-del (lease_key model i) (lrem (processing_key model) i s),
    view-lrem (processing_key model) i s,
    ==-ne (lease_key model i) (job_key id) (λ e. job-lease_ne id model i (sym e)),
  )

  module _ (faults : Faults) (inference : Surroundings) (model at : String) where
    publish-IsFinal :
        (n : ℕ) (i : String) (o : RelayResult) (w : RelayState server)
        → IsFinal w.redis
        → IsFinal (publish_result server codec left faults n model i o w).1.redis
    unfolding publish_result announced
    publish-IsFinal n i o w h =
        let after = (relay_update server codec left i o w.redis).1 in
        let kept = update-IsFinal i o w.redis h in
        ground (arith, h, kept, done-IsFinal model i after kept)

    deleted-IsFinal :
        (key : String) (w : RelayState server)
        → IsFinal w.redis
        → IsFinal (delete_input server codec left faults inference model at key w).redis
    deleted-IsFinal key w h =
        ap (stored server codec id) (deleted server codec left faults inference model at key w).0
        ∙ h

    give_up-IsFinal :
        (i reason : String) (w : RelayState server)
        → IsFinal w.redis
        → IsFinal (give_up server codec left faults inference model at i reason w).1.redis
    unfolding give_up
    give_up-IsFinal i reason w h =
        let o = failure_result reason at in ground (arith, publish-IsFinal 0 i o w h)

    failed-IsFinal :
        (k : Job) (text : String) (w : RelayState server)
        → IsFinal w.redis
        → IsFinal (inference_failed server codec left faults inference model at k text w).1.redis
    unfolding inference_failed
    failed-IsFinal k text w h =
        let (error, after) =
          give_up server codec left faults inference model at k.id (append "inference: " text) w in
        let kept = give_up-IsFinal k.id (append "inference: " text) w h in
        ground (arith, kept, deleted-IsFinal k.input_ref after kept)

    announced-IsFinal :
        (k : Job) (text : String) (w : RelayState server)
        → IsFinal w.redis
        → IsFinal (announce_completed server codec left faults inference model at k text w).redis
    unfolding announce_completed
    announced-IsFinal k text w h =
        let o = completed_result inference k.id text at in
        let (done, after) = publish_result server codec left faults 0 model k.id o w in
        let once = publish-IsFinal 0 k.id o w h in
        ground (arith, once, publish-IsFinal 1 k.id o after once)

    finish-IsFinal :
        (k : Job) (text : String) (w : RelayState server)
        → IsFinal w.redis
        → IsFinal (finish server codec left faults inference model at k text w).1.redis
    unfolding finish stored_result
    finish-IsFinal k text w h =
        let put = stored_result server codec left faults inference model at k text w in
        elim (Option-cases (put_failure server codec left faults inference model at)) [
          | inl e ↦ rw (finish, e) (deleted-IsFinal k.input_ref _ (announced-IsFinal k text put h))
          | inr (f, e) ↦ rw (finish, e) h
        ]

    second-IsFinal :
        (k : Job) (f : Fetched) (w : RelayState server)
        → IsFinal w.redis
        → IsFinal (second_try server codec left faults inference model at k f w).1.redis
    unfolding second_try second_answer
    second-IsFinal k (unfetched e) w h = h
    second-IsFinal k missing w h = give_up-IsFinal k.id _ w h
    second-IsFinal k (body text) w h =
        elim (inference.call 1 k text)
          as (λ i.
            IsFinal (second_answer server codec left faults inference model at k i w).1.redis) [
              | result r ↦ finish-IsFinal k r w h
              | broken c r ↦ failed-IsFinal k r w h
            ]

    first-IsFinal :
        (k : Job) (f : Fetched) (w : RelayState server)
        → IsFinal w.redis
        → IsFinal (first_try server codec left faults inference model at k f w).1.redis
    unfolding first_try first_answer
    first-IsFinal k (unfetched e) w h = h
    first-IsFinal k missing w h = give_up-IsFinal k.id _ w h
    first-IsFinal k (body text) w h =
        elim (inference.call 0 k text)
          as (λ i.
            IsFinal (first_answer server codec left faults inference model at k i w).1.redis) [
              | result r ↦ finish-IsFinal k r w h
              | broken c r ↦
                  let again =
                    second-IsFinal k
                      (get_object server codec left faults inference model at 1 k.input_ref w) w
                      h in
                  elim (Bool-cases c) [ inl e ↦ rw e h | inr e ↦ rw e again ]
            ]

    -- No run on a job, whichever calls fail, changes a record that is final.
    pub process-IsFinal :
        (k : Job) (w : RelayState server)
        → IsFinal w.redis
        → IsFinal (process server codec left faults inference model at k w).1.redis
    unfolding process
    process-IsFinal k w h =
        first-IsFinal k (get_object server codec left faults inference model at 0 k.input_ref w) w h
