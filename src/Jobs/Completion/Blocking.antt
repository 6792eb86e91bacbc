-- ===== src/Jobs/Completion/Blocking.antt =====
-- relaycomplete.go: a result that a blocking detector flags.
use gatew_ai.Base.{
  ℕ, ◌≡◌, refl, sym, ◌∙◌, true, false, not, none, some, String, str_eq, eq_refl, ==-ne, List, [],
  ◌∷◌, ◌++◌, arith, if◌then◌else◌,
}
use gatew_ai.Server.{Server}
use gatew_ai.Guardrails.{no_items}
use gatew_ai.Jobs.{
  Job, Codec, JobTtl, completed, failed, ttl_for_status, job_key, scan_gate_key,
  completion_claim_key,
}
use gatew_ai.Jobs.Records.{patched, get_job, override_job_result}
use gatew_ai.Jobs.Claims.{claim_completion}
use gatew_ai.Jobs.Submission.Saved.{job_gate}
use gatew_ai.Jobs.Polling.{no_error, shown, get_status}
use gatew_ai.Jobs.Polling.Timeout.{failed_shown}
use gatew_ai.Jobs.Completion.{
  Stage, CompletionCalls, Handler, Effect, notified, webhook, Gateway, enforcing, overridden_by,
  block_result, acted, apply_result_guardrails, gate_opened, with_guardrails, async_guardrails_for,
  accounted, run_completion_work, worked, process_completion, blocked_update, scan_result,
}
use gatew_ai.Jobs.Completion.Once.{claim_job}

abbrev pub no_failure : CompletionCalls
no_failure = record {
  claims = true;
  reads_job = true;
  is_open = true;
  gets = true;
  uploads = true;
  overrides = true;
  clears = true;
}

-- The job as the webhook carries it.
abbrev pub blocked : Job → List String → String → Job
blocked j cats at = record j {
  status = failed;
  result_ref = "";
  error = (blocked_update cats at).error;
}

module _ (server : Server) (codec : Codec) (ttls : JobTtl) (h : Handler) (at : String) where
  open server use {Store, view, set, del, view-set, view-del, set_nx_lem}
  open codec use {encode, decode-encode}

  -- A completed job of a blocking stage, nobody's yet, whose result a detector flags.
  pub record IsFlagged (j : Job) (stage : Stage) (body : String) (g : Gateway server) : Type 0 where
    pub stored : (view g.redis).text (job_key j.id) ≡ some (encode j)
    pub unclaimed : (view g.redis).text (completion_claim_key j.id) ≡ none
    pub done : j.status ≡ completed
    pub referred : str_eq j.result_ref "" ≡ false
    pub there : g.objects j.result_ref ≡ some body
    pub scanned : h.scans ≡ true
    pub routed : h.stage_of j.service_type j.model ≡ some stage
    pub blocks : stage.action ≡ "block"
    pub has_text : no_items (h.texts_of body) ≡ false
    pub fires : no_items (scan_result h stage (h.texts_of body)).0 ≡ false

  text-blocked :
      (j : Job) (cats : List String) (s : Store) (k : String)
      → (view s).text (job_key j.id) ≡ some (encode j)
      → let (error, after) =
          override_job_result server codec ttls j.id (blocked_update cats at) s in
        (error ≡ none)
        × ((view after).text k ≡ (
            if str_eq (job_key j.id) k
            then some (encode (patched j (blocked_update cats at)))
            else (view s).text k))
  unfolding override_job_result
  text-blocked j cats s k e =
      let next = patched j (blocked_update cats at) in
      ground (
        arith,
        e,
        decode-encode j,
        view-set (job_key j.id) (encode next) (ttl_for_status ttls failed) s,
      )

  -- What is left in Redis by the scan: the failed record, and then no gate.
  abbrev scan_left : Job → List String → Store → Store
  scan_left j cats s =
      del (scan_gate_key j.id)
        (override_job_result server codec ttls j.id (blocked_update cats at) s).1

  module _ (j : Job) (stage : Stage) (body : String) (g : Gateway server)
      (is_flagged : IsFlagged j stage body g) where
    abbrev cats : List String
    cats = (scan_result h stage (h.texts_of body)).1

    abbrev over : Store → Store
    over s = (override_job_result server codec ttls j.id (blocked_update cats at) s).1

    staged : async_guardrails_for h j ≡ some stage
    unfolding async_guardrails_for
    staged =
        ground (arith, is_flagged.scanned, is_flagged.done, is_flagged.referred, is_flagged.routed)

    abbrev with_effects : Store → List Effect → Gateway server
    with_effects s es = record { redis = s; objects = g.objects; effects = es }

    scan_blocks :
        (s : Store) (es : List Effect)
        → (view s).text (job_key j.id) ≡ some (encode j)
        → apply_result_guardrails h server codec ttls no_failure at stage j (with_effects s es)
          ≡ (blocked j cats at, with_effects (over s) es)
    unfolding apply_result_guardrails acted block_result overridden_by
    scan_blocks s es e =
        let fine = (text-blocked j cats s (job_key j.id) e).0 in
        rw
          (
            apply_result_guardrails, is_flagged.there, is_flagged.has_text, acted, is_flagged.fires,
            is_flagged.blocks, block_result, overridden_by, fine,
          )
          refl

    work_blocked :
        (s : Store) (es : List Effect)
        → (view s).text (job_key j.id) ≡ some (encode j)
        → run_completion_work h server codec ttls no_failure at j (with_effects s es)
          ≡ with_effects (scan_left j cats s) (
              ((es ++ accounted h j) ++ notified j.id ∷ [])
              ++ (if not (str_eq j.callback_url "") then webhook (blocked j cats at) ∷ [] else []))
    unfolding run_completion_work with_guardrails gate_opened enforcing
    work_blocked s es e =
        rw (staged, scan_blocks s (es ++ accounted h j) e) (rw is_flagged.blocks refl)

    abbrev claimed : Store
    claimed = set (completion_claim_key j.id) "1" (ttl_for_status ttls completed) g.redis

    won : claim_completion server ttls j.id g.redis ≡ (true, claimed)
    unfolding claim_completion
    won =
        set_nx_lem (completion_claim_key j.id) "1" (ttl_for_status ttls completed) g.redis
        ∙ rw is_flagged.unclaimed refl

    still_there : (view claimed).text (job_key j.id) ≡ some (encode j)
    still_there = ground (
      arith,
      is_flagged.stored,
      view-set (completion_claim_key j.id) "1" (ttl_for_status ttls completed) g.redis,
      ==-ne (completion_claim_key j.id) (job_key j.id) (λ e. claim_job j.id j.id (sym e)),
    )

    read : get_job server codec j.id claimed ≡ (some j, none)
    unfolding get_job
    read = ground (arith, still_there, decode-encode j)

    processed :
        process_completion h server codec ttls no_failure at j.id g
        ≡ run_completion_work h server codec ttls no_failure at j (with_effects claimed g.effects)
    unfolding process_completion worked
    processed = rw (won, read) refl

    left_text :
        ((view (scan_left j cats claimed)).text (job_key j.id)
          ≡ some (encode (patched j (blocked_update cats at))))
        × ((view (scan_left j cats claimed)).text (scan_gate_key j.id) ≡ none)
    left_text = ground (
      arith,
      text-blocked j cats claimed (job_key j.id) still_there,
      view-del (scan_gate_key j.id) (over claimed),
      eq_refl (job_key j.id),
      eq_refl (scan_gate_key j.id),
      ==-ne (scan_gate_key j.id) (job_key j.id) (λ e. job_gate j.id j.id (sym e)),
    )

    -- Where every call succeeds: the completion work on a job whose result is flagged by a detector of a
    -- blocking stage leaves the failed job, without a result, and no gate. After the accounting the waiting
    -- requests are told, and then the callback, if there is one, gets the failed job. A poll by the
    -- job's consumer, at any time, shows the failed job.
    pub process_completion-blocked :
        (seconds : String → ℕ) (now : ℕ) (again : String)
        → let after = process_completion h server codec ttls no_failure at j.id g in
          let failed_job = patched j (blocked_update cats at) in
          (get_job server codec j.id after.redis ≡ (some failed_job, none))
          × ((view after.redis).text (scan_gate_key j.id) ≡ none)
          × (after.effects
              ≡ ((g.effects ++ accounted h j) ++ notified j.id ∷ [])
                ++ (if not (str_eq j.callback_url "")
                    then webhook (blocked j cats at) ∷ []
                    else []))
          × (get_status server codec ttls seconds no_error now again j.consumer_name j.service_type
                j.id after.redis
              ≡ (shown failed_job, after.redis))
    unfolding get_job
    process_completion-blocked seconds now again =
        let (record_left, gate_left) = left_text in
        let failed_job = patched j (blocked_update cats at) in
        rw (processed, work_blocked claimed g.effects still_there)
          (
            ground (arith, record_left, decode-encode failed_job),
            gate_left,
            refl,
            failed_shown server codec ttls seconds now again failed_job (scan_left j cats claimed)
                record_left refl,
          )
