-- ===== src/Relay/Processing/Escalating.antt =====
-- relay.go: an error that is escalated leaves the world as it was, so that the job can be run again.
use gatew_ai.Base.{
  ℕ, ◌≡◌, ◌⊎◌, refl, true, false, Option, none, some, String, append, arith, Bool-cases,
  Option-cases, inl, inr,
}
use gatew_ai.Server.{Server}
use gatew_ai.Jobs.{Job, Codec}
use gatew_ai.Relay.{RelayResult, Faults, RelayState, relay_update, publish_result}
use gatew_ai.Relay.Processing.{
  Failure, Fetched, Surroundings, result, broken, body, missing, unfetched, failure_result,
  get_object, give_up, inference_failed, put_failure, finish, second_answer, second_try,
  first_answer, first_try, process,
}

module _ (server : Server) (codec : Codec) (left : ℕ) (faults : Faults) (inference : Surroundings)
    (model at : String) where
  publish_kept :
      (n : ℕ) (id : String) (o : RelayResult) (w : RelayState server)
      → let (done, after) = publish_result server codec left faults n model id o w in
        (done ≡ true) ⊎ ((done ≡ false) × (after ≡ w))
  unfolding publish_result
  publish_kept n id o w = elim (Bool-cases (faults.updates n)) [
    | inr e ↦ rw e (inr (refl, refl))
    | inl e ↦ elim (Option-cases (relay_update server codec left id o w.redis).0) [
      | inl f ↦ rw (e, f) (inl refl)
      | inr (x, f) ↦ rw (e, f) (inr (refl, refl))
    ]
  ]

  abbrev Kept : RelayState server → Option Failure × RelayState server → Type 0
  Kept w answer = (answer.0 ≡ none) ⊎ (answer.1 ≡ w)

  give_up-Kept :
      (id reason : String) (w : RelayState server)
      → Kept w (give_up server codec left faults inference model at id reason w)
  unfolding give_up
  give_up-Kept id reason w = elim (publish_kept 0 id (failure_result reason at) w) [
    | inl e ↦ rw e (inl refl)
    | inr (e, f) ↦ rw (e, f) (inr refl)
  ]

  failed-Kept :
      (j : Job) (text : String) (w : RelayState server)
      → Kept w (inference_failed server codec left faults inference model at j text w)
  unfolding inference_failed give_up
  failed-Kept j text w =
      elim (publish_kept 0 j.id (failure_result (append "inference: " text) at) w) [
        | inl e ↦ inl (ground (arith, e))
        | inr (e, f) ↦ inr (ground (arith, e, f))
      ]

  finish-Kept :
      (j : Job) (text : String) (w : RelayState server)
      → Kept w (finish server codec left faults inference model at j text w)
  unfolding finish
  finish-Kept j text w =
      elim (Option-cases (put_failure server codec left faults inference model at)) [
        | inl e ↦ inl (ground (arith, e))
        | inr (f, e) ↦ inr (ground (arith, e))
      ]

  second-Kept :
      (j : Job) (f : Fetched) (w : RelayState server)
      → Kept w (second_try server codec left faults inference model at j f w)
  unfolding second_try second_answer
  second-Kept j (unfetched e) w = inr refl
  second-Kept j missing w = give_up-Kept j.id _ w
  second-Kept j (body text) w =
      elim (inference.call 1 j text)
        as (λ i. Kept w (second_answer server codec left faults inference model at j i w)) [
          | result r ↦ finish-Kept j r w
          | broken c r ↦ failed-Kept j r w
        ]

  first-Kept :
      (j : Job) (f : Fetched) (w : RelayState server)
      → Kept w (first_try server codec left faults inference model at j f w)
  unfolding first_try first_answer
  first-Kept j (unfetched e) w = inr refl
  first-Kept j missing w = give_up-Kept j.id _ w
  first-Kept j (body text) w =
      elim (inference.call 0 j text)
        as (λ i. Kept w (first_answer server codec left faults inference model at j i w)) [
          | result r ↦ finish-Kept j r w
          | broken c r ↦
              let again =
                second-Kept j
                  (get_object server codec left faults inference model at 1 j.input_ref w) w in
              elim (Bool-cases c) [ inl e ↦ rw e (inr refl) | inr e ↦ rw e again ]
        ]

  -- An escalated error changes nothing.
  pub process-kept :
      (j : Job) (w : RelayState server) (e : Failure)
      → (process server codec left faults inference model at j w).0 ≡ some e
      → (process server codec left faults inference model at j w).1 ≡ w
  unfolding process
  process-kept j w e h =
      elim (first-Kept j (get_object server codec left faults inference model at 0 j.input_ref w)
        w) [ inl f ↦ ground (arith, f, h) | inr f ↦ f ]
