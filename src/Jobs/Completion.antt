-- ===== src/Jobs/Completion.antt =====
-- internal/handler/relaycomplete.go: the work on a job that its relay has finished, on the gateway. Each call of
-- Redis or of the object store may fail, by an argument. What the limiters, the usage tracker, the
-- sender of webhooks and the waiting requests are told is a list of effects; the texts of a result,
-- the regular expressions and the order in which detectors answer are arguments.
pub mod Once
pub mod Blocking
pub mod Examples
use gatew_ai.Base.{
  ℕ, ◌+◌, Bool, true, false, not, ◌&&◌, ◌||◌, Option, none, some, String, append, str_eq, List, [],
  ◌∷◌, ◌++◌, ltb, update, if◌then◌else◌,
}
use gatew_ai.Server.{Server, View, present}
use gatew_ai.Guardrails.{
  Finding, Enforcement, ModelResult, Item, evaluate_all, categories_of, no_items,
}
use gatew_ai.Jobs.{Job, JobStatus, completed, failed, Codec, JobTtl, scan_gate_key}
use gatew_ai.Jobs.Records.{Outcome, Error, get_job, override_job_result}
use gatew_ai.Jobs.Claims.{claim_completion}
use gatew_ai.Jobs.Polling.{is_completed}

-- The asynchronous stage of a service's guardrails, if it is enabled.
pub record Stage : Type 0 where
  pub action : String
  pub checks : List String
  pub models : List Enforcement

pub record CompletionCalls : Type 0 where
  pub claims : Bool
  pub reads_job : Bool
  pub is_open : Bool  -- not shutting down
  pub gets : Bool
  pub uploads : Bool
  pub overrides : Bool
  pub clears : Bool

pub data Effect : Type 0 where
  time_added tokens_added time_tracked active_tracked tokens_tracked user_type_tracked :
      Job → Effect
  notified : (id : String) → Effect
  webhook : Job → Effect

-- Which of the parts are configured.
pub record Handler : Type 0 where
  pub scans : Bool
  pub limits_time : Bool
  pub limits_tokens : Bool
  pub tracks_usage : Bool
  pub stage_of : String → String → Option Stage  -- RouteAsync
  pub texts_of : String → List String
  pub regex : List String → List String → List String
  pub redact : String → List String → String × List String
  pub delivered : List Item → List Item

unfoldable pub enforcing : Stage → Bool
enforcing stage = str_eq stage.action "block" || str_eq stage.action "redact"

unfoldable pub seen_before : String → List String → Bool
seen_before x [] = false
seen_before x (y ∷ ys) = str_eq x y || seen_before x ys

-- The strings that are not among those seen, each once.
unfoldable pub unseen : List String → List String → List String
unfolding seen_before
unseen seen [] = []
unseen seen (x ∷ xs) =
    let rest = unseen (if seen_before x seen then seen else x ∷ seen) xs in
    if seen_before x seen then rest else x ∷ rest

unfoldable pub dedupe_strings : List String → List String
unfolding unseen
dedupe_strings xs = unseen [] xs

unfoldable pub join : List String → String
join [] = ""
join (x ∷ []) = x
join (x ∷ y ∷ rest) = append x (append ", " (join (y ∷ rest)))

-- The names of the detectors that fired, and the categories; one that failed does not count.
unfoldable pub fired_names : List ModelResult → List String × List String
fired_names [] = ([], [])
fired_names (r ∷ rest) =
    let (names, cats) = fired_names rest in
    elim r.error [ some e ↦ (names, cats) | none ↦ (r.name ∷ names, r.categories ++ cats) ]

abbrev pub text_of : Option String → String
text_of none = ""
text_of (some text) = text

-- The blocked and the redacted job.
abbrev pub blocked_update : List String → String → Outcome
blocked_update cats at = record {
  status = failed;
  result_ref = "";
  error = append "guardrails violation: " (join (dedupe_strings cats));
  at = at;
}

abbrev pub redacted_update : String → String → Outcome
redacted_update key at = record { status = completed; result_ref = key; error = ""; at = at }

module _ (server : Server) where
  open server use {Store}

  pub record Gateway : Type 0 where
    pub redis : Store
    pub objects : String → Option String
    pub effects : List Effect

module _ (h : Handler) where
  unfoldable pub scan_result : Stage → List String → List String × List String
  unfolding fired_names
  scan_result stage texts =
      let found = if no_items stage.checks then [] else h.regex stage.checks texts in
      let (names, cats) = fired_names (evaluate_all h.delivered stage.models texts) in
      if no_items found then (names, cats) else ("regex" ∷ names, found ++ cats)

  -- The stage of a job that is completed with a result.
  unfoldable pub async_guardrails_for : Job → Option Stage
  async_guardrails_for job =
      if not h.scans || not (is_completed job.status) || str_eq job.result_ref ""
      then none
      else h.stage_of job.service_type job.model

  abbrev when : Bool → Effect → List Effect
  when test e = if test then e ∷ [] else []

  -- What the limiters and the tracker are told, in this order.
  unfoldable pub accounted : Job → List Effect
  accounted job =
      let timed = ltb 0 job.processing_time in
      let total = ltb 0 (job.prompt_tokens + job.completion_tokens) in
      let tracked = h.tracks_usage && not (str_eq job.consumer_name "") in
      when (h.limits_time && timed) (time_added job)
      ++ (when (h.limits_tokens && total) (tokens_added job)
          ++ (when (tracked && timed) (time_tracked job)
              ++ (when (tracked && timed) (active_tracked job)
                  ++ (when (tracked && total) (tokens_tracked job)
                      ++ when tracked (user_type_tracked job)))))

  module _ (server : Server) (codec : Codec) (ttls : JobTtl) (calls : CompletionCalls)
      (at : String) where
    open server use {Store, view, del}

    -- Where the update fails, the job stays as it is.
    unfoldable pub overridden_by : Outcome → Job → Job → Gateway server → Job × Gateway server
    overridden_by o changed job g =
        let (error, after) = override_job_result server codec ttls job.id o g.redis in
        if not calls.overrides || present error
        then (job, g)
        else (changed, record g { redis = after })

    unfoldable pub block_result : List String → Job → Gateway server → Job × Gateway server
    unfolding overridden_by
    block_result cats job g =
        let o = blocked_update cats at in
        overridden_by o (record job { status = failed; result_ref = ""; error = o.error }) job g

    unfoldable pub redact_result :
        List String → String → Job → Gateway server → Job × Gateway server
    unfolding overridden_by
    redact_result checks body job g =
        let (text, cats) = h.redact body checks in
        let key = append job.result_ref ".redacted" in
        if no_items checks || no_items cats || not calls.uploads
        then (job, g)
        else overridden_by (redacted_update key at) (record job { result_ref = key }) job
            (record g { objects = update key (some text) g.objects })

    acted : Stage → String → List String → List String → Job → Gateway server → Job × Gateway server
    unfolding block_result redact_result
    acted stage body fired cats job g =
        if no_items fired
        then (job, g)
        else if str_eq stage.action "block"
        then block_result cats job g
        else if str_eq stage.action "redact"
        then redact_result stage.checks body job g
        else (job, g)

    unfoldable pub apply_result_guardrails : Stage → Job → Gateway server → Job × Gateway server
    unfolding acted scan_result
    apply_result_guardrails stage job g =
        let body = if calls.gets then g.objects job.result_ref else none in
        elim body [
          | none ↦ (job, g)
          | some b ↦
              let texts = h.texts_of b in
              let (fired, cats) = scan_result stage texts in
              if no_items texts then (job, g) else acted stage b fired cats job g
        ]

    -- The gate is cleared, and the waiting requests are told, after the scan.
    unfoldable pub gate_opened : Stage → String → Gateway server → Gateway server
    gate_opened stage id g =
        if enforcing stage
        then record g {
          redis = if calls.clears then del (scan_gate_key id) g.redis else g.redis;
          effects = g.effects ++ notified id ∷ [];
        }
        else g

    unfoldable pub with_guardrails : Option Stage → Job → Gateway server → Job × Gateway server
    unfolding apply_result_guardrails gate_opened enforcing
    with_guardrails none job g = (job, g)
    with_guardrails (some stage) job g =
        let (after, g') = apply_result_guardrails stage job g in
        (after, gate_opened stage job.id g')

    unfoldable pub run_completion_work : Job → Gateway server → Gateway server
    unfolding accounted with_guardrails async_guardrails_for
    run_completion_work job g =
        let told = record g { effects = g.effects ++ accounted job } in
        let (after, g') = with_guardrails (async_guardrails_for job) job told in
        record g' {
          effects = g'.effects ++ when (not (str_eq after.callback_url "")) (webhook after);
        }

    worked : Option Job × Option Error → Gateway server → Gateway server
    unfolding run_completion_work
    worked (found, some e) g = g
    worked (none, none) g = g
    worked (some job, none) g = if calls.is_open then run_completion_work job g else g

    -- A claim that cannot be made is taken for lost.
    unfoldable pub process_completion : String → Gateway server → Gateway server
    unfolding worked
    process_completion id g =
        let (won, claimed) = claim_completion server ttls id g.redis in
        let g' : Gateway server = record g { redis = claimed } in
        if not calls.claims
        then g
        else if not won || not calls.reads_job
        then g'
        else worked (get_job server codec id claimed) g'
