-- ===== src/Webhooks/Retrying.antt =====
-- webhook.go and webhook_retry.go: how often a delivery is attempted, and what becomes of it.
use gatew_ai.Base.{
  ℕ, suc, ◌+◌, ◌≤◌, ◌<◌, ◌≡◌, ap, true, false, Option, none, some, Option-cases, String, eq_refl,
  List, [], ◌∷◌, ◌++◌, length, All, ◌⊎◌, inl, inr, arith,
}
use gatew_ai.Server.{Server}
use gatew_ai.Jobs.{Job}
use gatew_ai.Webhooks.{
  WebhookTask, WebhookSender, TaskCodec, deliver, webhook_task_key, webhook_retry_zset,
  webhook_dead_letter, backoff, task_ttl, on_delivered, enqueue_retry, send, remove_task,
  dead_lettered, rescheduled, retried, process_retry,
}

-- The number of failed attempts that are recorded.
abbrev pub tried : WebhookTask → ℕ → WebhookTask
tried t n = record t { attempt = t.attempt + n }

abbrev pub first_task : Job → String → WebhookTask
first_task job payload = record {
  job_id = job.id;
  service_type = job.service_type;
  url = job.callback_url;
  payload = payload;
  attempt = 1;
  result_ref = job.result_ref;
}

module _ (ws : WebhookSender) (server : Server) (codec : TaskCodec) where
  open server use {
    Store, view, set, del, zadd, zrem, rpush, view-set, view-del, view-zadd, view-zrem, view-rpush,
  }
  open codec use {encode, decode, dead_letter_entry, decode-encode}

  decoded_task : Option String → Option WebhookTask
  decoded_task none = none
  decoded_task (some text) = decode text

  -- The task of a job that waits for a retry.
  unfoldable pub task_of : String → Store → Option WebhookTask
  unfolding decoded_task
  task_of id s = decoded_task ((view s).text (webhook_task_key id))

  abbrev pub due : String → Store → Option ℕ
  due id s = (view s).score webhook_retry_zset id

  abbrev pub dead : Store → List String
  dead s = (view s).list webhook_dead_letter

  -- Retries of one job, by what the endpoint answers and the time.
  pub retries : String → List (Option ℕ × ℕ) → Store → Store
  retries id [] s = s
  retries id ((answer, now) ∷ rest) s =
      retries id rest (process_retry ws server codec id answer now s).1

  process_stored :
      (id : String) (t : WebhookTask) (answer : Option ℕ) (now : ℕ) (s : Store)
      → task_of id s ≡ some t
      → process_retry ws server codec id answer now s ≡ retried ws server codec t id answer now s
  unfolding process_retry task_of
  process_stored id t answer now s h = elim (Option-cases ((view s).text (webhook_task_key id))) [
    | inl e ↦ ground (arith, e)
    | inr (text, e) ↦ ground (arith, e)
  ]

  fails_again :
      (id : String) (t : WebhookTask) (answer : Option ℕ) (now : ℕ) (s : Store)
      → task_of id s ≡ some t
      → deliver answer ≡ false
      → suc t.attempt < ws.max_retries
      → let after = (process_retry ws server codec id answer now s).1 in
        (task_of id after ≡ some (tried t 1))
        × (due id after ≡ some (now + backoff ws (suc t.attempt)))
        × (dead after ≡ dead s)
  unfolding retried rescheduled task_of
  fails_again id t answer now s h f l =
      let counted = record t { attempt = suc t.attempt } in
      let key = webhook_task_key id in
      let stored = set key (encode counted) (task_ttl ws) s in
      ground (
        arith,
        process_stored id t answer now s h,
        view-set key (encode counted) (task_ttl ws) s,
        view-zadd webhook_retry_zset (now + backoff ws (suc t.attempt)) id stored,
        eq_refl key,
        eq_refl webhook_retry_zset,
        eq_refl id,
        decode-encode counted,
      )

  fails_last :
      (id : String) (t : WebhookTask) (answer : Option ℕ) (now : ℕ) (s : Store)
      → task_of id s ≡ some t
      → deliver answer ≡ false
      → ws.max_retries ≤ suc t.attempt
      → let after = (process_retry ws server codec id answer now s).1 in
        (task_of id after ≡ none)
        × (due id after ≡ none)
        × (dead after ≡ dead s ++ dead_letter_entry (tried t 1) now ∷ [])
  unfolding retried dead_lettered task_of
  fails_last id t answer now s h f l =
      let counted = record t { attempt = suc t.attempt } in
      let key = webhook_task_key id in
      let pushed = rpush webhook_dead_letter (dead_letter_entry counted now) s in
      ground (
        arith,
        process_stored id t answer now s h,
        view-rpush webhook_dead_letter (dead_letter_entry counted now) s,
        view-zrem webhook_retry_zset id pushed,
        view-del key (zrem webhook_retry_zset id pushed),
        eq_refl key,
        eq_refl webhook_retry_zset,
        eq_refl id,
        eq_refl webhook_dead_letter,
      )

  -- A delivery that is acknowledged ends the retries: the task and its schedule are gone, no entry is
  -- added to the dead letters, and the result object is deleted unless results are kept.
  pub process_retry-delivered :
      (id : String) (t : WebhookTask) (answer : Option ℕ) (now : ℕ) (s : Store)
      → task_of id s ≡ some t
      → deliver answer ≡ true
      → let (deleted, after) = process_retry ws server codec id answer now s in
        (deleted ≡ on_delivered ws t.result_ref)
        × (task_of id after ≡ none)
        × (due id after ≡ none)
        × (dead after ≡ dead s)
  unfolding retried remove_task task_of
  process_retry-delivered id t answer now s h f =
      let key = webhook_task_key id in
      ground (
        arith,
        process_stored id t answer now s h,
        view-zrem webhook_retry_zset id s,
        view-del key (zrem webhook_retry_zset id s),
        eq_refl key,
        eq_refl webhook_retry_zset,
        eq_refl id,
      )

  unfoldable pub AllFail : List (Option ℕ × ℕ) → Type 0
  AllFail answers = All (λ a. deliver a.0 ≡ false) answers

  outlived :
      (id : String) (t : WebhookTask) (fails : List (Option ℕ × ℕ)) (answer : Option ℕ) (now : ℕ)
      (s : Store)
      → task_of id s ≡ some t
      → AllFail fails
      → deliver answer ≡ false
      → ws.max_retries ≤ t.attempt + suc (length fails)
      → (length fails ≡ 0) ⊎ (t.attempt + length fails < ws.max_retries)
      → let after = retries id (fails ++ (answer, now) ∷ []) s in
        (task_of id after ≡ none)
        × (due id after ≡ none)
        × (dead after ≡ dead s ++ dead_letter_entry (tried t (suc (length fails))) now ∷ [])
  unfolding retries AllFail
  outlived id t [] answer now s h a f m l = fails_last id t answer now s h f (omega (arith, m))
  outlived id t ((b, at) ∷ fails) answer now s h a f m l =
      let next = (process_retry ws server codec id b at s).1 in
      let more : t.attempt + suc (length fails) < ws.max_retries = ground (arith, l) in
      let (stored, scheduled, same) = fails_again id t b at s h a.0 (omega (arith, more)) in
      let (gone, unscheduled, buried) =
        outlived id (tried t 1) fails answer now next stored a.1 f (omega (arith, m))
          (inr (omega (arith, more))) in
      let sum : t.attempt + 1 + suc (length fails) ≡ t.attempt + suc (suc (length fails)) =
        omega arith in
      (
        gone,
        unscheduled,
        ground
            (arith, buried, same, ap (λ n. dead_letter_entry (record t { attempt = n }) now) sum),
      )

  sent :
      (job : Job) (payload : String) (answer : Option ℕ) (now : ℕ) (s : Store)
      → deliver answer ≡ false
      → let after = (send ws server codec job payload answer now s).1 in
        (task_of job.id after ≡ some (first_task job payload)) × (dead after ≡ dead s)
  unfolding send enqueue_retry task_of
  sent job payload answer now s f =
      let t = first_task job payload in
      let key = webhook_task_key job.id in
      let stored = set key (encode t) (task_ttl ws) s in
      ground (
        arith,
        f,
        view-set key (encode t) (task_ttl ws) s,
        view-zadd webhook_retry_zset (now + backoff ws 1) job.id stored,
        eq_refl key,
        decode-encode t,
      )

  -- When every attempt fails, a delivery is given up after as many attempts as are configured, but not
  -- before the second: then the task and its schedule are gone, and one entry with the number of
  -- attempts made is added to the dead letters.
  pub send-retries :
      (job : Job) (payload : String) (first : Option ℕ) (sent_at : ℕ) (fails : List (Option ℕ × ℕ))
      (answer : Option ℕ) (now : ℕ) (s : Store)
      → deliver first ≡ false
      → AllFail fails
      → deliver answer ≡ false
      → (ws.max_retries ≡ suc (suc (length fails))) ⊎ ((length fails ≡ 0) × (ws.max_retries ≤ 2))
      → let after =
          retries job.id
            (fails ++ (answer, now) ∷ [])
            (send ws server codec job payload first sent_at s).1 in
        (task_of job.id after ≡ none)
        × (due job.id after ≡ none)
        × (dead after
            ≡ dead s
              ++ dead_letter_entry
                  (record (first_task job payload) { attempt = suc (suc (length fails)) })
                  now
                ∷ [])
  send-retries job payload first sent_at fails answer now s f a g m =
      let (stored, same) = sent job payload first sent_at s f in
      let next = (send ws server codec job payload first sent_at s).1 in
      let (gone, unscheduled, buried) =
        outlived job.id (first_task job payload) fails answer now next stored a g
          (ground (arith, m)) (enough m) in
      let sum : 1 + suc (length fails) ≡ suc (suc (length fails)) = omega arith in
      (
        gone,
        unscheduled,
        ground (
          arith,
          buried,
          same,
          ap (λ n. dead_letter_entry (record (first_task job payload) { attempt = n }) now) sum,
        ),
      )
    where
      enough :
          (ws.max_retries ≡ suc (suc (length fails))) ⊎ ((length fails ≡ 0) × (ws.max_retries ≤ 2))
          → (length fails ≡ 0) ⊎ (1 + length fails < ws.max_retries)
      enough (inl e) = inr (omega (arith, e))
      enough (inr (z, e)) = inl z
