-- ===== src/Webhooks.antt =====
-- internal/consumer/webhook.go and webhook_retry.go: one delivery, and its retries. The Redis server is a
-- parameter (Server), and so is the JSON form of tasks and dead-letter entries. What the endpoint answers
-- is an argument: a status, or nothing for a network error. Times are milliseconds. That several
-- gateways poll the retries is not modelled.
pub mod Backoff
pub mod Retrying
pub mod Examples
use gatew_ai.Base.{
  ℕ, zero, suc, ◌+◌, ◌-◌, ◌*◌, ◌≡◌, Bool, true, false, not, ◌&&◌, Option, none, some, String,
  append, str_eq, ltb, leb, if◌then◌else◌,
}
use gatew_ai.Server.{Server, View}
use gatew_ai.Jobs.{Job}

pub record WebhookTask : Type 0 where
  pub job_id : String
  pub service_type : String
  pub url : String
  pub payload : String
  pub attempt : ℕ
  pub result_ref : String

pub record WebhookSender : Type 0 where
  pub persists_result : Bool
  pub max_retries : ℕ
  pub base_backoff : ℕ
  pub max_backoff : ℕ

pub record TaskCodec : Type 0 where
  pub encode : WebhookTask → String
  pub decode : String → Option WebhookTask
  pub dead_letter_entry : WebhookTask → ℕ → String  -- with the time of the failure
  pub decode-encode : (t : WebhookTask) → decode (encode t) ≡ some t

abbrev pub webhook_retry_zset : String
webhook_retry_zset = "webhook:retries"

abbrev pub webhook_dead_letter : String
webhook_dead_letter = "webhook:deadletter"

abbrev pub webhook_task_key : String → String
webhook_task_key id = append "webhook:retry:" id

-- The endpoint acknowledged the delivery.
abbrev pub deliver : Option ℕ → Bool
deliver none = false
deliver (some status) = not (leb 500 status)

module _ (ws : WebhookSender) where
  -- The loop of `n` doublings.
  doubled : ℕ → ℕ → ℕ
  doubled zero d = d
  doubled (suc n) d =
      let later = doubled n (d * 2) in if leb ws.max_backoff (d * 2) then ws.max_backoff else later

  unfoldable pub backoff : ℕ → ℕ
  unfolding doubled
  backoff attempt = doubled (attempt - 1) ws.base_backoff

  -- In milliseconds; an hour beyond the last retry.
  unfoldable pub task_ttl : ℕ
  task_ttl = ws.max_backoff * (ws.max_retries + 2) + 3600000

  -- The object that is deleted after a delivery.
  abbrev pub on_delivered : String → Option String
  on_delivered result_ref =
      if not ws.persists_result && not (str_eq result_ref "") then some result_ref else none

  module _ (server : Server) (codec : TaskCodec) where
    open server use {Store, view, set, del, zadd, zrem, rpush}
    open codec use {encode, decode, dead_letter_entry}

    unfoldable pub enqueue_retry : WebhookTask → ℕ → Store → Store
    enqueue_retry task now s =
        zadd webhook_retry_zset (now + backoff task.attempt) task.job_id
          (set (webhook_task_key task.job_id) (encode task) task_ttl s)

    -- One inline attempt; the object that is deleted, and the store.
    unfoldable pub send : Job → String → Option ℕ → ℕ → Store → Option String × Store
    send job payload answer now s = if deliver answer then (on_delivered job.result_ref, s) else (
      none,
      enqueue_retry
          (record {
            job_id = job.id;
            service_type = job.service_type;
            url = job.callback_url;
            payload = payload;
            attempt = 1;
            result_ref = job.result_ref;
          })
          now s,
    )

    unfoldable pub remove_task : String → Store → Store
    remove_task id s = del (webhook_task_key id) (zrem webhook_retry_zset id s)

    dead_lettered : WebhookTask → String → ℕ → Store → Store
    dead_lettered task id now s =
        del (webhook_task_key id)
          (zrem webhook_retry_zset id (rpush webhook_dead_letter (dead_letter_entry task now) s))

    rescheduled : WebhookTask → String → ℕ → Store → Store
    rescheduled task id now s =
        zadd webhook_retry_zset (now + backoff task.attempt) id
          (set (webhook_task_key id) (encode task) task_ttl s)

    retried : WebhookTask → String → Option ℕ → ℕ → Store → Option String × Store
    unfolding dead_lettered rescheduled remove_task
    retried task id answer now s =
        let counted = record task { attempt = suc task.attempt } in
        if deliver answer
        then (on_delivered task.result_ref, remove_task id s)
        else if leb ws.max_retries counted.attempt
        then (none, dead_lettered counted id now s)
        else (none, rescheduled counted id now s)

    -- A task that is gone or corrupt is dropped.
    unfoldable pub process_retry : String → Option ℕ → ℕ → Store → Option String × Store
    unfolding retried
    process_retry id answer now s = elim ((view s).text (webhook_task_key id)) [
      | none ↦ (none, zrem webhook_retry_zset id s)
      | some text ↦ elim (decode text) [
        | none ↦ (none, remove_task id s)
        | some task ↦ retried task id answer now s
      ]
    ]
