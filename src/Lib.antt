-- ===== src/Lib.antt =====
-- A verification library for the gateway: its admission decisions, the life of its asynchronous jobs,
-- and the delivery of their results.
--
-- The parts and how they interact. A request passes the access policies (internal/authz) and the rate
-- limiter (internal/ratelimit), is routed to a service (internal/service/registry.go), takes a slot of the semaphore (internal/concurrency), and is sent to the
-- backends of its service in an order drawn by weight (internal/service/backend.go), those left out whose
-- circuit breaker (internal/llmproxy/breaker.go) is open; guardrails (internal/guardrails) look at its text
-- and may redact it, or guard the answer while it is streamed. An asynchronous job is saved in Redis (internal/storage/redis.go), received by a
-- relay, completed once, or returned to its queue by the reaper when the relay died; a webhook
-- (internal/consumer) then tells its client. The rate limiter, the semaphore, the job storage and the
-- webhooks keep their state in Redis. The limits of a policy are those that the rate limiter reads.
--
-- Files and code:
--   Base        shared names, lists, dictionaries with text keys, and Go's signed integers.
--   Redis       the Redis server as an interface, for keys that hold integers with a time to live
--               (INCRBY, EXPIRE, TTL and the passing of time), with an implementation in memory.
--   Server      the same for texts, lists, sorted sets and counters, described by a view of the store.
--   Breaker     internal/llmproxy/breaker.go: NewCircuitBreaker is new_circuit_breaker, Allow, IsOpen,
--               RecordSuccess and RecordFailure are allow, is_open, record_success and record_failure; the
--               metrics that they set are part of the state.
--   RateLimit   internal/ratelimit/ratelimit.go. Window: checkFixedWindow with its script, and
--               CheckBackendPool. Requests: Check. Tokens: CheckTokens, CheckModelTokens,
--               CheckProcessingTime, AddTokens, AddModelTokens, AddTokensFor, AddProcessingTime.
--               Slots: CheckConcurrent, ReleaseSlot. Quotas: ResetQuota, with its handler in
--               internal/handler/quota.go.
--   Semaphore   internal/concurrency/semaphore.go: both constructors, TryAcquire, Release and
--               their scripts.
--   Authz       internal/authz/authz.go: New is new_engine, Evaluate and Allowed keep their names.
--   Jobs        internal/model/job.go and internal/storage/redis.go. Records: SaveJob, GetJob,
--               UpdateJobResult, OverrideJobResult, DeleteJob. Queue: PopJob, DoneJob, MarkJobCancelled,
--               and whether GetQueuePosition finds a position.
--               Claims: ClaimCompletion and the idempotency keys. Reaper: ReapOrphanedProcessingJobs. Textual: a
--               text form of a job, for examples. Sweeping: SweepOrphanedRelayQueueEntries,
--               JobsExistBatch. Submission and Polling: internal/handler/jobs.go, Submit from the job
--               that is built on, and GetStatus up to the result that it inlines, with SetScanGate, GetScanGate
--               and ClearScanGate. Cancel: Cancel of the same file. Completion: internal/handler/relaycomplete.go, ProcessCompletion and
--               all that it calls.
--   Admission   internal/handler/sync.go: handleJSON up to what serves the request, with callerAudience,
--               checkModelVisible and backendsDegraded of internal/handler/models.go. Multipart:
--               handleMultipart, which ends in proxy_to_inference of Sync.
--               Inspection: what handleJSON serves with, the guardrails on the input included.
--   Relay       relay/cmd/relay/main.go from the popped job on (Pod), relay/internal/relay/relay.go
--               (Processing), relay/internal/queue/queue.go and relay/internal/store/redis.go. It shares the
--               store of Jobs, so that Recovery follows a job from a pod that dies to the reaper, and
--               Cancelled a job that is cancelled under its pod.
--   Backends    internal/service/backend.go: OrderedBackends.
--   Guardrails  internal/guardrails/pipeline.go: EvaluateSync, EvaluateAll, EvaluateRedact, over the
--               interface Detector of detector.go.
--   Webhooks    internal/consumer/webhook.go and webhook_retry.go: Send, processRetry, enqueueRetry,
--               removeTask, backoff.
--   Registry    internal/service/registry.go. Configs: the definition of a service, with resolveBackends,
--               VisibleTo, OperationPath, BudgetKey. Patterns: pathPattern.match. Indices: NewRegistry. Routes:
--               RouteAsync, RouteSync, ResolveSyncByPath, MaxFileSizeForType.
--   Proxy       internal/llmproxy/handler.go: the loop of ServeJSON over the backends is forward, with the
--               order before it serve. It reads Breaker, Backends and the pools of RateLimit.
--   Sync        internal/handler/sync.go: proxyToInference is proxy_to_inference; its loops are attempts and
--               cycle. It takes a slot of Semaphore, and reads Backends and the pools of RateLimit.
--   Stream      internal/llmproxy/stream_guard.go, with SafeRedactPrefix and matchSpans of
--               internal/guardrails/guardrails.go; guarded is the loop of serveStream with its last flush.
-- Each Examples module has tests and applies the theorems at concrete inputs.
--
-- Conventions. State is passed explicitly: an operation takes the store and returns it with its answer. What
-- is not in the repository is an argument: the Redis servers, filepath.Match, the JSON form of records, the
-- number that rand.IntN draws, the answers of backends and of a client's endpoint, the matches of the
-- regular expressions, the order in which goroutines deliver.
-- A script runs as one step, as Redis runs it. Times are natural numbers. Counters of Redis and Go's int
-- are integers without a bound: no sum reaches 2^63. All recursion is structural, on a list or a number of
-- steps. The one fuel is that of split in Registry.Patterns, which is the length of the text: each part
-- that is cut off takes at least its separator away, so it does not run out before the text does.
--
-- Not modelled: what another handler does between the two calls of Cancel, which read and update a record;
-- logging, metrics other than those of the circuit breaker, tracing; errors of Redis other
-- than those that the rate limiter and the semaphore handle (the job storage and the webhooks are modelled
-- for a server that answers); the listing of jobs, stale jobs; the claim of due webhooks; FireAsync; of the proxy the cache, the translation of providers
-- and the loop for streams; of the synchronous handler the accounting after an answer; realtime services; the
-- other HTTP handlers, configuration, authentication, usage, health, storage of objects, and the start of both programs, which are input and output or wrap libraries for the most
-- part. The relay's adapter, which sends the multipart form, is an argument.
pub mod Base
pub mod Redis
pub mod Breaker
pub mod RateLimit
pub mod Semaphore
pub mod Authz
pub mod Server
pub mod Jobs
pub mod Backends
pub mod Guardrails
pub mod Webhooks
pub mod Registry
pub mod Stream
pub mod Proxy
pub mod Sync
pub mod Relay
pub mod Admission
