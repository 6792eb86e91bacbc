-- ===== src/Jobs/Examples.antt =====
-- job.go and redis.go: the theorems on the jobs, on a store with one job.
use gatew_ai.Base.{◌≡◌, refl, true, false, none, some, [], ◌∷◌, update}
use gatew_ai.Server.{View}
use gatew_ai.Server.Memory.{empty, memory}
use gatew_ai.Jobs.{
  Job, processing, completed, JobTtl, is_terminal_status, job_key, pending_key, processing_key,
}
use gatew_ai.Jobs.Textual.{textual}
use gatew_ai.Jobs.Records.{Outcome, patched, stored, save_job, get_job}
use gatew_ai.Jobs.Records.Terminal.{run, stored-first_terminal}
use gatew_ai.Jobs.Records.Saving.{get_job-save_job}
use gatew_ai.Jobs.Queue.{cancelled_by_client}
use gatew_ai.Jobs.Queue.Order.{received, save_all, received-save_all}
use gatew_ai.Jobs.Reaper.{dead_letter_update}

abbrev pub talk : Job
talk = record {
  id = "1";
  service_type = "audio";
  model = "m";
  status = processing;
  input_ref = "";
  result_ref = "";
  callback_url = "";
  inference_url = "";
  params = ("lang", "fr") ∷ [];
  consumer_name = "ada";
  user_type = "";
  priority = false;
  error = "";
  processing_time = 0;
  prompt_tokens = 2;
  completion_tokens = 0;
  created_at = 7;
  updated_at = "";
  trace_context = "";
}

abbrev pub day : JobTtl
day = record {
  global = 0;
  pending_ttl = 86400;
  completed_ttl = 0;
  failed_ttl = 0;
  cancelled_ttl = 0;
}

-- The job is stored and abandoned in the processing list.
abbrev abandoned : View
abandoned = record empty {
  text = update (job_key "1") (some (textual.encode talk)) (λ _. none);
  list = update (processing_key "m") ("1" ∷ []) (λ _. []);
}

stored-talk : stored memory textual "1" abandoned ≡ some talk
unfolding stored
stored-talk = refl

abbrev done : Outcome
done = record { status = completed; result_ref = "r"; error = ""; at = "noon" }

abbrev late : Outcome
late = cancelled_by_client "one"

stored-first_terminal_example :
    stored memory textual "1"
      (run memory textual day (("2", late) ∷ ("1", done) ∷ ("1", late) ∷ []) abandoned)
    ≡ some (patched talk done)
unfolding is_terminal_status
stored-first_terminal_example =
    stored-first_terminal memory textual day "1" (("2", late) ∷ ("1", done) ∷ ("1", late) ∷ []) talk
      abandoned done stored-talk refl refl

get_job-save_job_example :
    let after = save_job memory textual day 60 talk empty in
    (get_job memory textual "1" after ≡ (some talk, none))
    × (after.list (pending_key "m") ≡ "1" ∷ [])
get_job-save_job_example = get_job-save_job memory textual day 60 talk empty

abbrev urgent : Job
urgent = record talk { id = "9"; priority = true }

received-save_all_example :
    received memory textual day 60 "m" 2
      (save_job memory textual day 60 urgent (save_all memory textual day 60 "m" (talk ∷ []) empty))
    ≡ some "9" ∷ some "1" ∷ []
received-save_all_example =
    received-save_all memory textual day 60 "m" (talk ∷ []) urgent empty refl ((refl, refl), tt)
      refl refl

dead_letter_message :
    (dead_letter_update 12 "noon").error
    ≡ "relay worker died before completion; exceeded 12 requeue attempts"
dead_letter_message = refl
