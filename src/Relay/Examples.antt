-- ===== src/Relay/Examples.antt =====
-- relay.go: pods on a store with one queued job.
use gatew_ai.Base.{◌≡◌, refl, true, false, none, some, [], ◌∷◌, ◌++◌, update, eq_iff, arith, ◌≢◌}
use gatew_ai.Base.Int.{pos}
use gatew_ai.Server.{View, remove_first}
use gatew_ai.Server.Memory.{empty, memory}
use gatew_ai.Jobs.{
  Job, is_terminal_status, pending, processing, completed, job_key, lease_key, pending_key,
  processing_key,
}
use gatew_ai.Jobs.Textual.{textual}
use gatew_ai.Jobs.Examples.{talk, day}
use gatew_ai.Jobs.Records.{get_job, stored, update_job_result, patched}
use gatew_ai.Jobs.Queue.{has_queue_position, cancelled_by_client, mark_job_cancelled}
use gatew_ai.Jobs.Cancel.{CancelCalls, accepted, can_cancel, cancel}
use gatew_ai.Jobs.Polling.{shown, no_error, get_status}
use gatew_ai.Jobs.Reaper.{ReapResult, reap_entry, requeued_update}
use gatew_ai.Relay.{Faults, RelayState, published, posted, reported, publish_result, done, pop}
use gatew_ai.Relay.Processing.{
  Surroundings, result, infrastructure, process, failure_result, completed_result, result_key,
}
use gatew_ai.Relay.Processing.Settling.{IsSettled, process-IsSettled}
use gatew_ai.Relay.Processing.Losing.{process_lost_result}
use gatew_ai.Relay.Queueing.{has_queue_position-publish_result}
use gatew_ai.Relay.Recovery.{reap_entry-pod}
use gatew_ai.Relay.Cancelled.{Run, IsOf, run_all, cancelled-run_all}
use gatew_ai.Relay.Pod.{ended, fatal, pod}

abbrev speech : Job
speech = record talk { status = pending; input_ref = "1/input" }

abbrev queued : View
queued = record empty {
  text = update (job_key "1") (some (textual.encode speech)) empty.text;
  list = update (pending_key "m") ("1" ∷ []) empty.list;
  score = λ k i. some 7;
}

abbrev start : RelayState memory
start = record { redis = queued; objects = update "1/input" (some "wave") (λ k. none); events = [] }

abbrev fine : Faults
fine = record {
  leases = true;
  reads_job = true;
  updates = λ n. true;
  publishes = true;
  dones = true;
}

abbrev no_updates : Faults
no_updates = record fine { updates = λ n. false }

abbrev deaf : Surroundings
deaf = record {
  gets = λ n. none;
  puts = λ n. none;
  deletes = true;
  call = λ n j s. result "words";
  time_of = λ s. some 3;
  usage_of = λ s. some (pos 0, pos 0, pos 9);
}

abbrev unreachable : Surroundings
unreachable = record deaf { gets = λ n. some infrastructure }

-- A job that is popped is completed, announced and taken out of the list.
speech_completed :
    let (exit, after) = pod memory textual 0 fine deaf "m" "t" "pod" 60 start in
    (exit ≡ ended)
    × (stored memory textual "1" after.redis
        ≡ some (record speech {
          status = completed;
          result_ref = "1/result.json";
          updated_at = "t";
          processing_time = 3;
          prompt_tokens = 9;
        }))
    × (after.redis.list (processing_key "m") ≡ [])
    × (after.redis.text (lease_key "m" "1") ≡ none)
    × (after.events ≡ published "1" ∷ posted "1" ∷ [])
unfolding pod process completed_result publish_result pop stored get_job is_terminal_status
speech_completed = (refl, refl, refl, refl, refl)

stored-speech : stored memory textual "1" queued ≡ some speech
unfolding stored
stored-speech = refl

unfinished : is_terminal_status speech.status ≡ false
unfolding is_terminal_status
unfinished = refl

apart : speech.input_ref ≢ result_key speech.id
apart e = ground (arith, e, eq_iff "1/input" "1/result.json")

process-IsSettled_example :
    IsSettled memory textual 0 fine deaf "m" "t" speech start
      (process memory textual 0 fine deaf "m" "t" speech start)
process-IsSettled_example =
    process-IsSettled memory textual 0 fine deaf "m" "t" speech start stored-speech unfinished refl
      apart

process_lost_result_example :
    let (error, after) = process memory textual 0 no_updates deaf "m" "t" speech start in
    let (second, last) = process memory textual 0 fine deaf "m" "u" speech after in
    (error ≡ none)
    × (after.redis ≡ start.redis)
    × (after.objects "1/input" ≡ none)
    × (second ≡ none)
    × (stored memory textual "1" last.redis
        ≡ some (reported speech (failure_result "input file not found: 1/input" "u")))
    × (last.objects "1/result.json" ≡ some "words")
process_lost_result_example =
    process_lost_result memory textual 0 "m" no_updates fine deaf deaf "t" "u" speech start "wave"
      "words"
      (record {
        fetched = (refl, refl);
        answered = refl;
        put = refl;
        deleted = refl;
        down = (refl, refl);
        apart = apart;
      })
      stored-speech unfinished refl refl

placed : has_queue_position memory "1" "m" queued ≡ true
unfolding has_queue_position
placed = refl

has_queue_position-publish_result_example :
    let o = failure_result "no" "t" in
    let (done, after) = publish_result memory textual 0 fine 0 "m" "1" o start in
    (done ≡ true)
    × (stored memory textual "1" after.redis ≡ some (reported speech o))
    × (has_queue_position memory "1" "m" after.redis ≡ true)
    × (has_queue_position memory "1" "m"
          (update_job_result memory textual day "1" (cancelled_by_client "t") queued).1
        ≡ false)
has_queue_position-publish_result_example =
    has_queue_position-publish_result memory textual 0 day fine 0 "1" (failure_result "no" "t")
      (cancelled_by_client "t") speech start stored-speech unfinished refl refl placed

abbrev none_yet : ReapResult
none_yet = record { requeued_count = 0; dead_lettered_count = 0; dropped_count = 0 }

died : (pod memory textual 0 fine unreachable "m" "t" "pod" 60 start).0 ≡ fatal
unfolding pod pop get_job process
died = refl

reap_entry-pod_example :
    let died = (pod memory textual 0 fine unreachable "m" "t" "pod" 60 start).1 in
    let free = memory.del (lease_key "m" "1") died.redis in
    let after = (reap_entry memory textual day "u" "m" 3 "1" none_yet free).1 in
    (after.list (pending_key "m") ≡ [] ++ "1" ∷ [])
    × (after.list (processing_key "m")
        ≡ remove_first "1" (queued.list (processing_key "m") ++ "1" ∷ []))
    × (stored memory textual "1" after ≡ some (patched speech (requeued_update "u")))
reap_entry-pod_example =
    reap_entry-pod memory textual 0 fine unreachable "m" "t" "pod" 60 day "u" 3 none_yet "1" []
      speech start refl stored-speech unfinished refl died

abbrev running : Job
running = record speech { status = processing }

abbrev at_work : View
at_work = record empty { text = update (job_key "1") (some (textual.encode running)) empty.text }

abbrev allowed_calls : CancelCalls
allowed_calls = record { reads_job = true; updates = true }

-- The relay ends its inference after the job was cancelled.
abbrev late_run : Run
late_run = record { faults = fine; inference = deaf; model = "m"; at = "u"; job = running }

running_cancelled :
    (cancel memory textual day allowed_calls "t" "ada" "audio" "1" at_work).0 ≡ accepted
unfolding cancel can_cancel mark_job_cancelled update_job_result get_job is_terminal_status
running_cancelled = refl

abbrev afterwards : RelayState memory
afterwards = record start {
  redis = (cancel memory textual day allowed_calls "t" "ada" "audio" "1" at_work).1;
}

cancelled-run_all_example :
    (j : Job) × (stored memory textual "1" at_work ≡ some j)
    × IsOf "ada" "audio" j
    × (stored memory textual "1" (run_all memory textual day 0 (late_run ∷ []) afterwards).redis
        ≡ some (patched j (cancelled_by_client "t")))
    × (get_status memory textual day
          (λ stamp. 100)
          no_error
          130
          "v"
          "ada"
          "audio"
          "1"
          (run_all memory textual day 0 (late_run ∷ []) afterwards).redis
        ≡ (
          shown (patched j (cancelled_by_client "t")),
          (run_all memory textual day 0 (late_run ∷ []) afterwards).redis,
        ))
cancelled-run_all_example =
    cancelled-run_all memory textual day 0 allowed_calls "t" "ada" "audio" "1" at_work
      (late_run ∷ []) afterwards (λ stamp. 100) 130 "v" running_cancelled refl
