-- ===== src/Jobs/Polling/Timeout.antt =====
-- jobs.go: the gate of a job whose scan did not end in time.
use gatew_ai.Base.{
  ℕ, ◌≡◌, ◌+◌, ◌≤◌, refl, sym, ◌∙◌, true, false, none, some, String, eq_refl, ==-ne, arith,
}
use gatew_ai.Server.{Server}
use gatew_ai.Jobs.{Job, completed, failed, Codec, JobTtl, job_key, scan_gate_key, ttl_for_status}
use gatew_ai.Jobs.Records.{patched, get_job, override_job_result}
use gatew_ai.Jobs.Submission.Saved.{job_gate}
use gatew_ai.Jobs.Polling.{
  PollCalls, no_error, timed_out, shown, scan_timed_out, is_completed, parse_gate, gate_cleared,
  overridden_timeout, gated, polled, owned, get_status,
}

module _ (server : Server) (codec : Codec) (ttls : JobTtl) (seconds : String → ℕ) where
  open server use {Store, view, set, del, view-del, view-set}
  open codec use {encode, decode, decode-encode}

  -- A completed job under a gate whose time is over, and that fails it.
  pub record IsLapsed (now : ℕ) (j : Job) (s : Store) : Type 0 where
    pub text : String
    pub stored : (view s).text (job_key j.id) ≡ some (encode j)
    pub done : j.status ≡ completed
    pub gate : (view s).text (scan_gate_key j.id) ≡ some text
    pub closed : (parse_gate text).fail_closed ≡ true
    pub late : seconds j.updated_at + (parse_gate text).timeout ≤ now

  read_back :
      (j : Job) (id : String) (s : Store)
      → (view s).text (job_key id) ≡ some (encode j)
      → get_job server codec id s ≡ (some j, none)
  unfolding get_job
  read_back j id s h = ground (arith, h, decode-encode j)

  first_poll :
      (calls : PollCalls) (now : ℕ) (at : String) (j : Job) (s : Store)
      → calls.reads_job ≡ true
      → calls.reads_gate ≡ true
      → IsLapsed now j s
      → get_status server codec ttls seconds calls now at j.consumer_name j.service_type j.id s ≡ (
        timed_out j,
        gate_cleared server codec ttls seconds calls j.id
            (overridden_timeout server codec ttls seconds calls at j.id s),
      )
  unfolding get_status owned polled gated
  first_poll calls now at j s r g h = ground (
    arith,
    r,
    g,
    read_back j j.id s h.stored,
    eq_refl j.consumer_name,
    eq_refl j.service_type,
    h.done,
    h.gate,
    h.closed,
    h.late,
  )

  gate_gone :
      (calls : PollCalls) (j : Job) (s : Store)
      → calls.clears ≡ true
      → let after = gate_cleared server codec ttls seconds calls j.id s in
        ((view after).text (scan_gate_key j.id) ≡ none)
        × ((view after).text (job_key j.id) ≡ (view s).text (job_key j.id))
  unfolding gate_cleared
  gate_gone calls j s c = ground (
    arith,
    c,
    view-del (scan_gate_key j.id) s,
    eq_refl (scan_gate_key j.id),
    ==-ne (scan_gate_key j.id) (job_key j.id) (λ e. job_gate j.id j.id (sym e)),
  )

  timeout_kept :
      (calls : PollCalls) (at : String) (j : Job) (s : Store)
      → calls.overrides ≡ true
      → (view s).text (job_key j.id) ≡ some (encode j)
      → (view (overridden_timeout server codec ttls seconds calls at j.id s)).text (job_key j.id)
        ≡ some (encode (patched j (scan_timed_out at)))
  unfolding overridden_timeout override_job_result
  timeout_kept calls at j s c h =
      let next = patched j (scan_timed_out at) in
      ground (
        arith,
        c,
        h,
        decode-encode j,
        view-set (job_key j.id) (encode next) (ttl_for_status ttls failed) s,
        eq_refl (job_key j.id),
      )

  pub failed_shown :
      (now : ℕ) (at : String) (j : Job) (s : Store)
      → (view s).text (job_key j.id) ≡ some (encode j)
      → is_completed j.status ≡ false
      → get_status server codec ttls seconds no_error now at j.consumer_name j.service_type j.id s
        ≡ (shown j, s)
  unfolding get_status owned polled
  failed_shown now at j s h f =
      ground (arith, f, read_back j j.id s h, eq_refl j.consumer_name, eq_refl j.service_type)

  ungated_shown :
      (now : ℕ) (at : String) (j : Job) (s : Store)
      → (view s).text (job_key j.id) ≡ some (encode j)
      → (view s).text (scan_gate_key j.id) ≡ none
      → get_status server codec ttls seconds no_error now at j.consumer_name j.service_type j.id s
        ≡ (shown j, s)
  unfolding get_status owned polled
  ungated_shown now at j s h g =
      ground (arith, g, read_back j j.id s h, eq_refl j.consumer_name, eq_refl j.service_type)

  -- When the time for the scan of a job is over and its gate fails it, a poll by its consumer answers that
  -- it failed, and if no call fails, every later poll shows the failed job, without a result.
  pub get_status-IsLapsed :
      (now later : ℕ) (at again : String) (j : Job) (s : Store)
      → IsLapsed now j s
      → let (answer, after) =
          get_status server codec ttls seconds no_error now at j.consumer_name j.service_type j.id
            s in
        (answer ≡ timed_out j)
        × (get_status server codec ttls seconds no_error later again j.consumer_name j.service_type
              j.id after
            ≡ (shown (patched j (scan_timed_out at)), after))
  get_status-IsLapsed now later at again j s h =
      let over = overridden_timeout server codec ttls seconds no_error at j.id s in
      let (_, kept) = gate_gone no_error j over refl in
      let read = kept ∙ timeout_kept no_error at j s refl h.stored in
      let after = gate_cleared server codec ttls seconds no_error j.id over in
      rw (first_poll no_error now at j s refl refl h)
        (refl, failed_shown later again (patched j (scan_timed_out at)) after read refl)

  -- If the update that fails the job does not succeed at that poll, while the gate is cleared, the next
  -- poll shows the completed job as it is, with its result, though nothing scanned it.
  pub get_status_lost_timeout :
      (calls : PollCalls) (now later : ℕ) (at again : String) (j : Job) (s : Store)
      → calls.reads_job ≡ true
      → calls.reads_gate ≡ true
      → calls.overrides ≡ false
      → calls.clears ≡ true
      → IsLapsed now j s
      → let (answer, after) =
          get_status server codec ttls seconds calls now at j.consumer_name j.service_type j.id s in
        (answer ≡ timed_out j)
        × (get_status server codec ttls seconds no_error later again j.consumer_name j.service_type
              j.id after
            ≡ (shown j, after))
  unfolding overridden_timeout gate_cleared
  get_status_lost_timeout calls now later at again j s r g o c h =
      let (gone_, kept) = gate_gone calls j s c in
      let after = gate_cleared server codec ttls seconds calls j.id s in
      rw (first_poll calls now at j s r g h, o)
        (refl, ungated_shown later again j after (kept ∙ h.stored) gone_)
