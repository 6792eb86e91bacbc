-- ===== src/Jobs/Completion/Examples.antt =====
-- relaycomplete.go: the completion of a job whose result is flagged, and a claim that is wasted.
use gatew_ai.Base.{
  ◌≡◌, refl, true, false, not, none, some, str_eq, [], ◌∷◌, ◌++◌, update, if◌then◌else◌,
}
use gatew_ai.Server.Memory.{empty, memory}
use gatew_ai.Jobs.{Job, completed, job_key, scan_gate_key}
use gatew_ai.Jobs.Textual.{textual}
use gatew_ai.Jobs.Examples.{talk, day}
use gatew_ai.Jobs.Records.{get_job, patched}
use gatew_ai.Jobs.Polling.{no_error, shown, get_status}
use gatew_ai.Guardrails.{evaluate_all}
use gatew_ai.Jobs.Completion.{
  Stage, CompletionCalls, Handler, notified, webhook, Gateway, accounted, scan_result,
  blocked_update, dedupe_strings, process_completion,
}
use gatew_ai.Jobs.Claims.{claim_completion}
use gatew_ai.Jobs.Completion.Once.{triggers, triggers-process_completion, triggers-lost_completion}
use gatew_ai.Jobs.Completion.Blocking.{no_failure, blocked, IsFlagged, process_completion-blocked}

abbrev spoken : Job
spoken = record talk { status = completed; result_ref = "1/r"; callback_url = "http://c" }

abbrev strict : Stage
strict = record { action = "block"; checks = "pii" ∷ []; models = [] }

abbrev handler : Handler
handler = record {
  scans = true;
  limits_time = true;
  limits_tokens = true;
  tracks_usage = false;
  stage_of = λ service model. some strict;
  texts_of = λ body. body ∷ [];
  regex = λ checks texts. "email" ∷ "email" ∷ [];
  redact = λ body checks. (body, []);
  delivered = λ items. items;
}

abbrev gateway : Gateway memory
gateway = record {
  redis = record empty {
    text =
        update (scan_gate_key "1") (some "30|fail_closed")
          (update (job_key "1") (some (textual.encode spoken)) empty.text);
  };
  objects = update "1/r" (some "a@b.c") (λ k. none);
  effects = [];
}

email_only : dedupe_strings ("email" ∷ "email" ∷ []) ≡ "email" ∷ []
unfolding dedupe_strings
email_only = refl

unread : CompletionCalls
unread = record no_failure { reads_job = false }

triggers-process_completion_example :
    let after = process_completion handler memory textual day no_failure "t" "1" gateway in
    triggers memory textual day handler "1" ((no_failure, "u") ∷ (unread, "v") ∷ []) after ≡ after
triggers-process_completion_example =
    triggers-process_completion memory textual day handler no_failure "t" "1"
      ((no_failure, "u") ∷ (unread, "v") ∷ []) gateway refl

triggers-lost_completion_example :
    triggers memory textual day handler "1"
      ((no_failure, "u") ∷ [])
      (process_completion handler memory textual day unread "t" "1" gateway)
    ≡ record gateway { redis = (claim_completion memory day "1" gateway.redis).1 }
unfolding unread
triggers-lost_completion_example =
    triggers-lost_completion memory textual day handler unread "t" "1" ((no_failure, "u") ∷ [])
      gateway refl refl

flagged : IsFlagged memory textual day handler "t" spoken strict "a@b.c" gateway
unfolding scan_result evaluate_all
flagged = record {
  stored = refl;
  unclaimed = refl;
  done = refl;
  referred = refl;
  there = refl;
  scanned = refl;
  routed = refl;
  blocks = refl;
  has_text = refl;
  fires = refl;
}

process_completion-blocked_example :
    let cats = (scan_result handler strict ("a@b.c" ∷ [])).1 in
    let after = process_completion handler memory textual day no_failure "t" "1" gateway in
    let failed_job = patched spoken (blocked_update cats "t") in
    (get_job memory textual "1" after.redis ≡ (some failed_job, none))
    × (after.redis.text (scan_gate_key "1") ≡ none)
    × (after.effects
        ≡ (([] ++ accounted handler spoken) ++ notified "1" ∷ [])
          ++ (if not (str_eq "http://c" "") then webhook (blocked spoken cats "t") ∷ [] else []))
    × (get_status memory textual day (λ t. 0) no_error 9 "u" "ada" "audio" "1" after.redis
        ≡ (shown failed_job, after.redis))
process_completion-blocked_example =
    process_completion-blocked memory textual day handler "t" spoken strict "a@b.c" gateway flagged
      (λ t. 0) 9 "u"
