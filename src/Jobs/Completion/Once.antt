-- ===== src/Jobs/Completion/Once.antt =====
-- relaycomplete.go: of all the triggers for a job one does the work.
use gatew_ai.Base.{
  ◌≡◌, ◌≢◌, refl, ◌∙◌, true, false, Option, none, some, String, append, eq_iff, eq_refl, ==-ne,
  prefix-ne, List, [], ◌∷◌, arith, Option-cases, inl, inr, ◌++◌, ◌&&◌, update, if◌then◌else◌,
}
use gatew_ai.Server.{Server, present}
use gatew_ai.Jobs.{
  Job, Codec, JobTtl, completed, failed, ttl_for_status, job_key, scan_gate_key,
  completion_claim_key,
}
use gatew_ai.Jobs.Records.{Error, Outcome, patched, get_job, override_job_result}
use gatew_ai.Jobs.Claims.{claim_completion}
use gatew_ai.Jobs.Completion.{
  Stage, CompletionCalls, Handler, Gateway, overridden_by, block_result, redact_result, acted,
  apply_result_guardrails, gate_opened, with_guardrails, async_guardrails_for, run_completion_work,
  worked, process_completion, blocked_update, redacted_update, scan_result, accounted,
}

pub claim_job : (id other : String) → job_key other ≢ completion_claim_key id
claim_job id other =
    prefix-ne "job:" "comp" "lete:" other id refl (ground (arith, eq_iff "job:" "comp"))

pub claim_gate : (id other : String) → scan_gate_key other ≢ completion_claim_key id
claim_gate id other =
    prefix-ne "jobscan:" "complete" ":" other id refl (ground (arith, eq_iff "jobscan:" "complete"))

module _ (server : Server) (codec : Codec) (ttls : JobTtl) where
  open server use {Store, view, set, del, set_nx, view-set, view-del, set_nx_lem}
  open codec use {encode, decode}

  text-override :
      (id k : String) (o : Outcome) (s : Store)
      → job_key id ≢ k
      → (view (override_job_result server codec ttls id o s).1).text k ≡ (view s).text k
  unfolding override_job_result
  text-override id k o s ne = elim (Option-cases ((view s).text (job_key id))) [
    | inl e ↦ ground (arith, e)
    | inr (t, e) ↦ elim (Option-cases (decode t)) [
      | inl bad ↦ ground (arith, e, bad)
      | inr (j, good) ↦ ground (
        arith,
        e,
        good,
        view-set (job_key id) (encode (patched j o)) (ttl_for_status ttls o.status) s,
        ==-ne (job_key id) k ne,
      )
    ]
  ]

  module _ (h : Handler) (calls : CompletionCalls) (at : String) where
    overridden_by-text :
        (k : String) (o : Outcome) (changed job : Job) (g : Gateway server)
        → job_key job.id ≢ k
        → (view (overridden_by h server codec ttls calls at o changed job g).1.redis).text k
          ≡ (view g.redis).text k
    unfolding overridden_by
    overridden_by-text k o changed job g ne = ground (arith, text-override job.id k o g.redis ne)

    redact-text :
        (k : String) (checks : List String) (body : String) (job : Job) (g : Gateway server)
        → job_key job.id ≢ k
        → (view (redact_result h server codec ttls calls at checks body job g).1.redis).text k
          ≡ (view g.redis).text k
    unfolding redact_result
    redact-text k checks body job g ne =
        let key = append job.result_ref ".redacted" in
        let put : Gateway server = record g {
          objects = update key (some (h.redact body checks).0) g.objects;
        } in
        let changed : Job = record job { result_ref = key } in
        ground (arith, overridden_by-text k (redacted_update key at) changed job put ne)

    acted-text :
        (k : String) (stage : Stage) (body : String) (fired cats : List String) (job : Job)
        (g : Gateway server)
        → job_key job.id ≢ k
        → (view (acted h server codec ttls calls at stage body fired cats job g).1.redis).text k
          ≡ (view g.redis).text k
    unfolding acted block_result
    acted-text k stage body fired cats job g ne =
        let o = blocked_update cats at in
        let changed : Job = record job { status = failed; result_ref = ""; error = o.error } in
        ground
          (arith, overridden_by-text k o changed job g ne, redact-text k stage.checks body job g ne)

    apply-text :
        (k : String) (stage : Stage) (job : Job) (g : Gateway server)
        → job_key job.id ≢ k
        → (view (apply_result_guardrails h server codec ttls calls at stage job g).1.redis).text k
          ≡ (view g.redis).text k
    unfolding apply_result_guardrails
    apply-text k stage job g ne =
        elim (Option-cases (if calls.gets then g.objects job.result_ref else none)) [
          | inl e ↦ ground (arith, e)
          | inr (b, e) ↦
              let texts = h.texts_of b in
              let (fired, cats) = scan_result h stage texts in
              ground (arith, e, acted-text k stage b fired cats job g ne)
        ]

    work-text :
        (k : String) (job : Job) (g : Gateway server)
        → job_key job.id ≢ k
        → scan_gate_key job.id ≢ k
        → (view (run_completion_work h server codec ttls calls at job g).redis).text k
          ≡ (view g.redis).text k
    unfolding run_completion_work with_guardrails gate_opened
    work-text k job g ne gate = elim (Option-cases (async_guardrails_for h job)) [
      | inl e ↦ ground (arith, e)
      | inr (stage, e) ↦
          let told : Gateway server = record g { effects = g.effects ++ accounted h job } in
          let after = (apply_result_guardrails h server codec ttls calls at stage job told).1 in
          ground (
            arith,
            e,
            apply-text k stage job told ne,
            view-del (scan_gate_key job.id) after.redis,
            ==-ne (scan_gate_key job.id) k gate,
          )
    ]

    worked-text :
        (k : String) (found : Option Job × Option Error) (g : Gateway server)
        → ((id : String) → job_key id ≢ k)
        → ((id : String) → scan_gate_key id ≢ k)
        → (view (worked h server codec ttls calls at found g).redis).text k ≡ (view g.redis).text k
    unfolding worked
    worked-text k (found, some e) g ne gate = refl
    worked-text k (none, none) g ne gate = refl
    worked-text k (some job, none) g ne gate =
        ground (arith, work-text k job g (ne job.id) (gate job.id))

    worked_closed :
        (found : Option Job × Option Error) (g : Gateway server)
        → calls.is_open ≡ false
        → worked h server codec ttls calls at found g ≡ g
    unfolding worked
    worked_closed (found, some e) g shut = refl
    worked_closed (none, none) g shut = refl
    worked_closed (some job, none) g shut = rw shut refl

    only_claimed :
        (id : String) (g : Gateway server)
        → calls.claims ≡ true
        → (calls.reads_job && calls.is_open) ≡ false
        → process_completion h server codec ttls calls at id g
          ≡ record g { redis = (claim_completion server ttls id g.redis).1 }
    unfolding process_completion
    only_claimed id g up lost =
        let claimed = (claim_completion server ttls id g.redis).1 in
        let g' : Gateway server = record g { redis = claimed } in
        let found = get_job server codec id claimed in
        ground (arith, up, lost, worked_closed found g')

    -- After a call that reaches Redis the job is claimed.
    claimed_after :
        (id : String) (g : Gateway server)
        → calls.claims ≡ true
        → let after = process_completion h server codec ttls calls at id g in
          present ((view after.redis).text (completion_claim_key id)) ≡ true
    unfolding process_completion claim_completion
    claimed_after id g up =
        let key = completion_claim_key id in
        let ttl = ttl_for_status ttls completed in
        let (won, claimed) = claim_completion server ttls id g.redis in
        let g' : Gateway server = record g { redis = claimed } in
        let found = get_job server codec id claimed in
        ground (
          arith,
          up,
          set_nx_lem key "1" ttl g.redis,
          view-set key "1" ttl g.redis,
          eq_refl key,
          worked-text key found g' (claim_job id) (claim_gate id),
        )

    claimed_before :
        (id : String) (g : Gateway server)
        → present ((view g.redis).text (completion_claim_key id)) ≡ true
        → process_completion h server codec ttls calls at id g ≡ g
    unfolding process_completion claim_completion
    claimed_before id g there = ground (
      arith,
      there,
      set_nx_lem (completion_claim_key id) "1" (ttl_for_status ttls completed) g.redis,
    )

  -- Triggers of one job, one after the other, each with its calls and its time.
  pub triggers :
      Handler → String → List (CompletionCalls × String) → Gateway server → Gateway server
  triggers h id [] g = g
  triggers h id ((calls, at) ∷ rest) g =
      triggers h id rest (process_completion h server codec ttls calls at id g)

  triggers_claimed :
      (h : Handler) (id : String) (cs : List (CompletionCalls × String)) (g : Gateway server)
      → present ((view g.redis).text (completion_claim_key id)) ≡ true
      → triggers h id cs g ≡ g
  unfolding triggers
  triggers_claimed h id [] g there = refl
  triggers_claimed h id ((calls, at) ∷ rest) g there =
      let same = claimed_before h calls at id g there in
      rw same (triggers_claimed h id rest g there)

  -- Once a trigger has reached Redis, further triggers of the same job, however many and whatever
  -- calls of theirs fail, change neither Redis nor an object, and have no effect.
  pub triggers-process_completion :
      (h : Handler) (calls : CompletionCalls) (at id : String)
      (cs : List (CompletionCalls × String)) (g : Gateway server)
      → calls.claims ≡ true
      → let after = process_completion h server codec ttls calls at id g in
        triggers h id cs after ≡ after
  triggers-process_completion h calls at id cs g up =
      triggers_claimed h id cs (process_completion h server codec ttls calls at id g)
        (claimed_after h calls at id g up)

  -- A trigger that reaches Redis and then cannot read the job, or comes while the gateway shuts down,
  -- does nothing but claim the job, and no later trigger does anything, however many and whatever calls of
  -- theirs fail: there is no effect, no object changes, and the store of Redis is the one after the claim.
  pub triggers-lost_completion :
      (h : Handler) (calls : CompletionCalls) (at id : String)
      (cs : List (CompletionCalls × String)) (g : Gateway server)
      → calls.claims ≡ true
      → (calls.reads_job && calls.is_open) ≡ false
      → triggers h id cs (process_completion h server codec ttls calls at id g)
        ≡ record g { redis = (claim_completion server ttls id g.redis).1 }
  triggers-lost_completion h calls at id cs g up lost =
      triggers-process_completion h calls at id cs g up ∙ only_claimed h calls at id g up lost
