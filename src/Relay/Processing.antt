-- ===== src/Relay/Processing.antt =====
-- relay/internal/relay/relay.go: Processor. The adapter (an interface) and the JSON of a result are arguments.
pub mod Settling
pub mod Losing
pub mod Escalating
pub mod Final
use gatew_ai.Base.{
  ℕ, ◌≡◌, Bool, true, false, ◌&&◌, Option, none, some, String, append, List, ltb, ◌==◌, update,
  if◌then◌else◌,
}
use gatew_ai.Base.Int.{ℤ, pos, pos_part, eqb_ℤ}
use gatew_ai.Server.{Server}
use gatew_ai.Jobs.{Job, completed, failed, Codec}
use gatew_ai.Relay.{RelayResult, Faults, RelayState, publish_result}

-- context.Canceled, or another failure of S3 or Redis.
pub data Failure : Type 0 where
  canceled infrastructure : Failure

pub data Inferred : Type 0 where
  result : (body : String) → Inferred
  broken : (is_canceled : Bool) (text : String) → Inferred

pub data Fetched : Type 0 where
  body : (text : String) → Fetched
  missing : Fetched
  unfetched : Failure → Fetched

-- The failures of S3 by the number of the call; what inference answers; what a result's JSON says.
pub record Surroundings : Type 0 where
  pub gets : ℕ → Option Failure
  pub puts : ℕ → Option Failure
  pub deletes : Bool
  pub call : ℕ → Job → String → Inferred
  pub time_of : String → Option ℕ
  pub usage_of : String → Option (ℤ × ℤ × ℤ)

unfoldable pub extract_tokens : Option (ℤ × ℤ × ℤ) → ℤ × ℤ
extract_tokens none = (pos 0, pos 0)
extract_tokens (some (prompt, completion, total)) =
    if eqb_ℤ prompt (pos 0) && eqb_ℤ completion (pos 0) && ltb 0 (pos_part total)
    then (total, completion)
    else (prompt, completion)

abbrev pub result_key : String → String
result_key id = append id "/result.json"

abbrev pub failure_result : String → String → RelayResult
failure_result reason at = record {
  status = failed;
  result_ref = "";
  error = reason;
  at = at;
  processing_time = none;
  prompt_tokens = pos 0;
  completion_tokens = pos 0;
}

unfoldable pub completed_result : Surroundings → String → String → String → RelayResult
unfolding extract_tokens
completed_result inference id text at =
    let (prompt, completion) = extract_tokens (inference.usage_of text) in
    record {
      status = completed;
      result_ref = result_key id;
      error = "";
      at = at;
      processing_time = inference.time_of text;
      prompt_tokens = prompt;
      completion_tokens = completion;
    }

module _ (server : Server) (codec : Codec) (left : ℕ) (faults : Faults) (inference : Surroundings)
    (model at : String) where
  abbrev RelayWorld : Type 0
  RelayWorld = RelayState server

  unfoldable pub get_object : ℕ → String → RelayWorld → Fetched
  get_object n key w = elim (inference.gets n) [
    | some e ↦ unfetched e
    | none ↦ elim (w.objects key) [ none ↦ missing | some text ↦ body text ]
  ]

  unfoldable pub delete_input : String → RelayWorld → RelayWorld
  delete_input key w =
      if inference.deletes then record w { objects = update key none w.objects } else w

  -- A permanent failure; an update that fails is escalated.
  unfoldable pub give_up : String → String → RelayWorld → Option Failure × RelayWorld
  give_up id reason w =
      let (done, after) =
        publish_result server codec left faults 0 model id (failure_result reason at) w in
      if done then (none, after) else (some infrastructure, after)

  unfoldable pub inference_failed : Job → String → RelayWorld → Option Failure × RelayWorld
  unfolding give_up delete_input
  inference_failed job text w =
      let (error, after) = give_up job.id (append "inference: " text) w in
      elim error [ some e ↦ (some e, after) | none ↦ (none, delete_input job.input_ref after) ]

  -- Neither failure of the second call is escalated.
  unfoldable pub announce_completed : Job → String → RelayWorld → RelayWorld
  unfolding completed_result
  announce_completed job text w =
      let o = completed_result inference job.id text at in
      let (done, after) = publish_result server codec left faults 0 model job.id o w in
      if done then after else (publish_result server codec left faults 1 model job.id o after).1

  stored_result : Job → String → RelayWorld → RelayWorld
  stored_result job text w = record w { objects = update (result_key job.id) (some text) w.objects }

  -- A put that fails is tried once more.
  put_failure : Option Failure
  put_failure = elim (inference.puts 0) [ none ↦ none | some e ↦ inference.puts 1 ]

  unfoldable pub finish : Job → String → RelayWorld → Option Failure × RelayWorld
  unfolding announce_completed stored_result put_failure delete_input
  finish job text w = elim put_failure [
    | some e ↦ (some e, w)
    | none ↦
        (none, delete_input job.input_ref (announce_completed job text (stored_result job text w)))
  ]

  second_answer : Job → Inferred → RelayWorld → Option Failure × RelayWorld
  unfolding finish inference_failed
  second_answer job (result text) w = finish job text w
  second_answer job (broken is_canceled text) w = inference_failed job text w

  unfoldable pub second_try : Job → Fetched → RelayWorld → Option Failure × RelayWorld
  unfolding second_answer give_up
  second_try job (unfetched e) w = (some e, w)
  second_try job missing w =
      give_up job.id (append "input file not found on retry: " job.input_ref) w
  second_try job (body text) w = second_answer job (inference.call 1 job text) w

  first_answer : Job → Inferred → RelayWorld → Option Failure × RelayWorld
  unfolding finish second_try get_object
  first_answer job (result text) w = finish job text w
  first_answer job (broken is_canceled text) w =
      if is_canceled then (some canceled, w) else second_try job (get_object 1 job.input_ref w) w

  unfoldable pub first_try : Job → Fetched → RelayWorld → Option Failure × RelayWorld
  unfolding first_answer give_up
  first_try job (unfetched e) w = (some e, w)
  first_try job missing w = give_up job.id (append "input file not found: " job.input_ref) w
  first_try job (body text) w = first_answer job (inference.call 0 job text) w

  unfoldable pub process : Job → RelayWorld → Option Failure × RelayWorld
  unfolding first_try get_object
  process job w = first_try job (get_object 0 job.input_ref w) w
