-- ===== src/Jobs/Polling/Examples.antt =====
-- jobs.go: polls of a job whose scan took too long, and of another consumer.
use gatew_ai.Base.{ℕ, ◌≡◌, refl, false, none, some, String, update, eq_iff, arith}
use gatew_ai.Server.{View}
use gatew_ai.Server.Memory.{empty, memory}
use gatew_ai.Jobs.{Job, completed, job_key, scan_gate_key}
use gatew_ai.Jobs.Textual.{textual}
use gatew_ai.Jobs.Examples.{talk, day}
use gatew_ai.Jobs.Records.{patched, get_job}
use gatew_ai.Jobs.Polling.{
  PollCalls, no_error, shown, timed_out, scan_timed_out, digits, parse_gate, polled, owned,
  get_status,
}
use gatew_ai.Jobs.Polling.Isolation.{job_of, job-get_status}
use gatew_ai.Jobs.Polling.Timeout.{IsLapsed, get_status-IsLapsed, get_status_lost_timeout}

abbrev finished : Job
finished = record talk { status = completed; result_ref = "r" }

abbrev seconds : String → ℕ
seconds stamp = 100

abbrev gate : String
gate = "30|fail_closed"

abbrev waiting : View
waiting = record empty {
  text =
      update (scan_gate_key "1") (some gate)
        (update (job_key "1") (some (textual.encode finished)) (λ _. none));
}

half_a_minute : (parse_gate gate).timeout ≡ 30
unfolding parse_gate digits
half_a_minute = refl

lapsed : IsLapsed memory textual day seconds 130 finished waiting
unfolding parse_gate digits
lapsed = record {
  text = gate;
  stored = refl;
  done = refl;
  gate = refl;
  closed = refl;
  late = omega arith;
}

get_status-IsLapsed_example :
    let (answer, after) =
      get_status memory textual day seconds no_error 130 "t" "ada" "audio" "1" waiting in
    (answer ≡ timed_out finished)
    × (get_status memory textual day seconds no_error 131 "u" "ada" "audio" "1" after
        ≡ (shown (patched finished (scan_timed_out "t")), after))
get_status-IsLapsed_example =
    get_status-IsLapsed memory textual day seconds 130 131 "t" "u" finished waiting lapsed

abbrev one_fails : PollCalls
one_fails = record no_error { overrides = false }

get_status_lost_timeout_example :
    let (answer, after) =
      get_status memory textual day seconds one_fails 130 "t" "ada" "audio" "1" waiting in
    (answer ≡ timed_out finished)
    × (get_status memory textual day seconds no_error 131 "u" "ada" "audio" "1" after
        ≡ (shown finished, after))
get_status_lost_timeout_example =
    get_status_lost_timeout memory textual day seconds one_fails 130 131 "t" "u" finished waiting
      refl refl refl refl lapsed

told :
    job_of
      (get_status memory textual day seconds no_error 131 "t" "ada" "audio" "1"
        (record waiting { text = update (scan_gate_key "1") none waiting.text })).0
    ≡ some finished
unfolding get_status get_job owned polled
told = refl

job-get_status_example : (finished.consumer_name ≡ "ada") × (finished.service_type ≡ "audio")
job-get_status_example =
    job-get_status memory textual day seconds no_error 131 "t" "ada" "audio" "1" finished
      (record waiting { text = update (scan_gate_key "1") none waiting.text })
      (λ e. ground (arith, e, eq_iff "ada" "")) told
