-- ===== src/Jobs/Submission/Examples.antt =====
-- jobs.go: two submissions with one idempotency key, and one that cannot be saved.
use gatew_ai.Base.{◌≡◌, refl, true, false, none, some, eq_iff, arith, update}
use gatew_ai.Server.Memory.{empty, memory}
use gatew_ai.Server.{View}
use gatew_ai.Jobs.{Job, pending, processing, job_key}
use gatew_ai.Jobs.Records.{get_job}
use gatew_ai.Jobs.Textual.{textual}
use gatew_ai.Jobs.Examples.{talk, day}
use gatew_ai.Jobs.Submission.{Gate, all_succeed, accepted, submit}
use gatew_ai.Jobs.Submission.Replay.{replay_of, submit-submit}
use gatew_ai.Jobs.Submission.Gating.{IsGated, submit-IsGated}

abbrev first : Job
first = record talk { status = pending }

abbrev second : Job
second = record first { id = "2" }

abbrev strict : Gate
strict = record { timeout = 30; fail_closed = true }

-- The job is under way when the second submission comes.
abbrev under_way : View
under_way =
    let after = (submit memory textual day 60 90 all_succeed first (some strict) "k" empty).1 in
    record after {
      text =
          update (job_key "1") (some (textual.encode (record first { status = processing })))
            after.text;
    }

submit-submit_example :
    let (out, after) = submit memory textual day 60 90 all_succeed first (some strict) "k" empty in
    (out ≡ accepted "1")
    × (get_job memory textual "1" after ≡ (some first, none))
    × (submit memory textual day 60 90 all_succeed second none "k" under_way
        ≡ (replay_of all_succeed (get_job memory textual "1" under_way), under_way))
submit-submit_example =
    submit-submit memory textual day 60 90 all_succeed all_succeed first second (some strict) none
      "k" empty under_way refl refl refl refl (λ e. ground (arith, e, eq_iff "k" ""))
      (λ e. ground (arith, e, eq_iff "1" "")) refl refl refl

submit-IsGated_example : IsGated memory textual day 60 90 first empty (
    submit memory textual day 60 90
      (record all_succeed { saves = false })
      first
      (some strict)
      "k"
      empty)
submit-IsGated_example =
    submit-IsGated memory textual day 60 90 (record all_succeed { saves = false }) first strict "k"
      empty
