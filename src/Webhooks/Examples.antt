-- ===== src/Webhooks/Examples.antt =====
-- webhook.go and webhook_retry.go: the theorems on one delivery.
use gatew_ai.Base.{
  ◌≡◌, refl, ap, ◌∙◌, false, Option, none, some, String, List, [], ◌∷◌, update, inl,
}
use gatew_ai.Server.{View}
use gatew_ai.Server.Memory.{empty, memory}
use gatew_ai.Jobs.{Job, completed}
use gatew_ai.Jobs.Textual.{pack, split, unary, size, split-pack, size-unary}
use gatew_ai.Webhooks.{WebhookTask, WebhookSender, TaskCodec, webhook_task_key, send}
use gatew_ai.Webhooks.Retrying.{first_task, AllFail, task_of, due, dead, retries, send-retries}

abbrev task_of_fields : List String → Option WebhookTask
task_of_fields (a ∷ b ∷ c ∷ d ∷ e ∷ f ∷ []) = some (record {
  job_id = a;
  service_type = b;
  url = c;
  payload = d;
  attempt = size e;
  result_ref = f;
})
task_of_fields fs = none

abbrev task_fields : WebhookTask → List String
task_fields t = t.job_id ∷ t.service_type ∷ t.url ∷ t.payload ∷ unary t.attempt ∷ t.result_ref ∷ []

task_of-fields : (t : WebhookTask) → task_of_fields (split (pack (task_fields t))) ≡ some t
task_of-fields t = ap task_of_fields (split-pack (task_fields t)) ∙ rw (size-unary t.attempt) refl

abbrev textual : TaskCodec
textual = record {
  encode = λ t. pack (task_fields t);
  decode = λ s. task_of_fields (split s);
  dead_letter_entry = λ t now. pack (task_fields t);
  decode-encode = task_of-fields;
}

abbrev sender : WebhookSender
sender = record {
  persists_result = false;
  max_retries = 3;
  base_backoff = 30000;
  max_backoff = 600000;
}

abbrev talk : Job
talk = record {
  id = "1";
  service_type = "audio";
  model = "m";
  status = completed;
  input_ref = "";
  result_ref = "r";
  callback_url = "http://client";
  inference_url = "";
  params = [];
  consumer_name = "";
  user_type = "";
  priority = false;
  error = "";
  processing_time = 0;
  prompt_tokens = 0;
  completion_tokens = 0;
  created_at = 7;
  updated_at = "";
  trace_context = "";
}

abbrev waiting : View
waiting = record empty {
  text = update (webhook_task_key "1") (some (textual.encode (first_task talk "{}"))) (λ _. none);
}

task-waiting : task_of sender memory textual "1" waiting ≡ some (first_task talk "{}")
unfolding task_of
task-waiting = refl

send-retries_example :
    let after =
      retries sender memory textual "1"
        ((some 503, 60000) ∷ (none, 120000) ∷ [])
        (send sender memory textual talk "{}" none 0 empty).1 in
    (task_of sender memory textual "1" after ≡ none)
    × (due sender memory textual "1" after ≡ none)
    × (dead sender memory textual after
        ≡ textual.dead_letter_entry (record (first_task talk "{}") { attempt = 3 }) 120000 ∷ [])
unfolding AllFail
send-retries_example =
    send-retries sender memory textual talk "{}" none 0 ((some 503, 60000) ∷ []) none 120000 empty
      refl (refl, tt) refl (inl refl)
