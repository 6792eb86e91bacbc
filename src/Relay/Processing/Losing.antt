-- ===== src/Relay/Processing/Losing.antt =====
-- relay.go: a result that was computed and is lost, as the failure to publish it is not escalated.
use gatew_ai.Base.{
  ℕ, ◌≡◌, ◌≢◌, refl, ap, ◌∙◌, true, false, none, some, String, append, eq_refl, ==-ne, arith,
  update,
}
use gatew_ai.Server.{Server}
use gatew_ai.Jobs.{Job, Codec, is_terminal_status}
use gatew_ai.Jobs.Records.{stored}
use gatew_ai.Relay.{reported, Faults, RelayState}
use gatew_ai.Relay.Processing.{
  Surroundings, result, failure_result, result_key, get_object, delete_input, give_up,
  announce_completed, stored_result, put_failure, completed_result, finish, first_answer, first_try,
  process,
}
use gatew_ai.Relay.Processing.Settling.{told, published_up, published_down}

module _ (server : Server) (codec : Codec) (left : ℕ) (model : String) where
  -- Surroundings answers and its result is stored, but the two updates of the record fail.
  pub record IsUnpublished (faults : Faults) (inference : Surroundings) (j : Job)
      (w : RelayState server) (input text : String) : Type 0 where
    pub fetched : (inference.gets 0 ≡ none) × (w.objects j.input_ref ≡ some input)
    pub answered : inference.call 0 j input ≡ result text
    pub put : inference.puts 0 ≡ none
    pub deleted : inference.deletes ≡ true
    pub down : (faults.updates 0 ≡ false) × (faults.updates 1 ≡ false)
    pub apart : j.input_ref ≢ result_key j.id

  unpublished :
      (faults : Faults) (inference : Surroundings) (at : String) (j : Job) (w : RelayState server)
      (input text : String)
      → IsUnpublished faults inference j w input text
      → process server codec left faults inference model at j w ≡ (
        none,
        record w {
          objects = update j.input_ref none (update (result_key j.id) (some text) w.objects);
        },
      )
  unfolding process first_try first_answer finish announce_completed stored_result put_failure
      delete_input get_object
  unpublished faults inference at j w input text h =
      let put : RelayState server = record w {
        objects = update (result_key j.id) (some text) w.objects;
      } in
      let o = completed_result inference j.id text at in
      ground (
        arith,
        h.fetched,
        h.answered,
        h.put,
        h.deleted,
        published_down server codec left faults model 0 j.id o put h.down.0,
        published_down server codec left faults model 1 j.id o put h.down.1,
      )

  not_found :
      (faults : Faults) (inference : Surroundings) (at : String) (j : Job) (w : RelayState server)
      → stored server codec j.id w.redis ≡ some j
      → is_terminal_status j.status ≡ false
      → inference.gets 0 ≡ none
      → w.objects j.input_ref ≡ none
      → faults.updates 0 ≡ true
      → let o = failure_result (append "input file not found: " j.input_ref) at in
        process server codec left faults inference model at j w
        ≡ (none, told server codec left faults model j.id o w)
  unfolding process first_try give_up get_object
  not_found faults inference at j w h u fetched gone up =
      let o = failure_result (append "input file not found: " j.input_ref) at in
      ground
        (arith, fetched, gone, (published_up server codec left faults model 0 j.id o j w h u up).0)

  -- If inference answers and its result is stored, but the update of the record fails twice, no error is
  -- escalated, the record stays as it was, and the input is deleted. A later run on the same job,
  -- whose calls all succeed, makes the job fail for want of its input, with the result still in the object store.
  pub process_lost_result :
      (faults again : Faults) (inference other : Surroundings) (at later : String) (j : Job)
      (w : RelayState server) (input text : String)
      → IsUnpublished faults inference j w input text
      → stored server codec j.id w.redis ≡ some j
      → is_terminal_status j.status ≡ false
      → other.gets 0 ≡ none
      → again.updates 0 ≡ true
      → let (error, after) = process server codec left faults inference model at j w in
        let (second, last) = process server codec left again other model later j after in
        (error ≡ none)
        × (after.redis ≡ w.redis)
        × (after.objects j.input_ref ≡ none)
        × (second ≡ none)
        × (stored server codec j.id last.redis
            ≡ some
                (reported j (failure_result (append "input file not found: " j.input_ref) later)))
        × (last.objects (result_key j.id) ≡ some text)
  process_lost_result faults again inference other at later j w input text h s u fetched up =
      let o = failure_result (append "input file not found: " j.input_ref) later in
      let lost : RelayState server = record w {
        objects = update j.input_ref none (update (result_key j.id) (some text) w.objects);
      } in
      let gone : lost.objects j.input_ref ≡ none = rw (eq_refl j.input_ref) refl in
      let kept : lost.objects (result_key j.id) ≡ some text =
        rw (==-ne j.input_ref (result_key j.id) h.apart, eq_refl (result_key j.id)) refl in
      let (same, written, objects) =
        published_up server codec left again model 0 j.id o j lost s u up in
      rw
        (
          unpublished faults inference at j w input text h,
          not_found again other later j lost s u fetched gone up,
        )
        (
          refl,
          refl,
          gone,
          refl,
          written,
          ap (λ (f : String → _). f (result_key j.id)) objects ∙ kept,
        )
