-- ===== src/Admission/Multipart.antt =====
-- internal/handler/sync.go: handleMultipart, down to the requests to the backends (Sync). The pool's semaphore
-- and limiter, which of their scripts reach the server, and the network are arguments.
use gatew_ai.Base.{
  ℕ, ◌≡◌, Bool, true, not, ◌||◌, Option, none, some, String, str_eq, arith, Option-cases, inl, inr,
  if◌then◌else◌,
}
use gatew_ai.Base.Int.{ℤ}
use gatew_ai.Redis.{Redis}
use gatew_ai.RateLimit.{Limiter}
use gatew_ai.Semaphore.{SlotCalls, ModelSemaphore}
use gatew_ai.Registry.Configs.{Def}
use gatew_ai.Registry.Indices.{Registry}
use gatew_ai.Registry.Routes.{refused, routed, route_sync, resolve_sync_by_path}
use gatew_ai.Registry.Unambiguous.{route_sync-resolve_sync_by_path}
use gatew_ai.Sync.{Service, Inference, Outcome, proxy_to_inference}
use gatew_ai.Admission.Alike.{Alike, admitted-Alike}
use gatew_ai.Admission.{
  SyncHandler, HttpRequest, Answer, unrouted, unreadable, is_priority, fallen_back, admitted,
  handle_json,
}

abbrev service_of : Def → Service
service_of d = record { pool_name = d.pool_name; retries = d.retries; backends = d.backends }

-- Whether an upload can be sent again: a form that was parsed, or a small one.
abbrev pub is_reusable : Registry → HttpRequest → Bool
is_reusable registry r = elim (resolve_sync_by_path registry r.path) [
  | some d ↦ r.small
  | none ↦ true
]

module _ (redis : Redis) (parse_duration : String → Option ℤ) (glob : String → String → Option Bool)
    (up : String → Bool) (works : SlotCalls) (h : SyncHandler) (pool_limiter : Option Limiter)
    (pool_semaphore : Option ModelSemaphore) (pool_works : SlotCalls) (net : Inference) where
  open redis use {Store}

  -- The proxy for a body that can be sent again, or that is streamed.
  unfoldable pub proxied : HttpRequest → Bool → Def → Store → Outcome × Store
  proxied r reusable d s =
      let (out, w) =
        proxy_to_inference redis parse_duration pool_limiter up (service_of d) net reusable
          pool_semaphore pool_works (is_priority h r) s in
      (out, w.store)

  -- Where the path alone tells the service, a large upload is streamed, and not read before the slot
  -- is taken; otherwise the form is parsed, and rebuilt after the checks.
  unfoldable pub handle_multipart : HttpRequest → Store → Answer Outcome × Store
  handle_multipart r s = elim (resolve_sync_by_path h.registry r.path) [
    | some d ↦
        admitted redis parse_duration glob up works h (proxied r r.small) r
          (r.readable || not r.small) d s
    | none ↦ if not r.parses then (unreadable, s) else elim (route_sync h.registry r.path r.model) [
      | refused e ↦ (unrouted e, s)
      | routed d ↦ admitted redis parse_duration glob up works h (proxied r true) r r.readable d s
    ]
  ]

  multipart-admitted :
      (r : HttpRequest) (d : Def) (s : Store)
      → r.parses ≡ true
      → r.readable ≡ true
      → route_sync h.registry r.path r.model ≡ routed d
      → handle_multipart r s
        ≡ admitted redis parse_duration glob up works h
            (proxied r (is_reusable h.registry r))
            r
            true
            d
            s
  unfolding handle_multipart
  multipart-admitted r d s p b q = elim (Option-cases (resolve_sync_by_path h.registry r.path)) [
    | inl e ↦ ground (arith, e, p, q, b)
    | inr (e, f) ↦
        let same = route_sync-resolve_sync_by_path h.registry r.path r.model e d f q in
        ground (arith, f, b, same)
  ]

json-admitted :
    (redis : Redis) (parse_duration : String → Option ℤ) (glob : String → String → Option Bool)
    (up : String → Bool) (works : SlotCalls) (h : SyncHandler) {A : Type 0}
    (serve : Def → redis.Store → A × redis.Store) (now : ℕ) (r : HttpRequest) (d : Def)
    (s : redis.Store)
    → r.parses ≡ true
    → route_sync h.registry r.path r.model ≡ routed d
    → str_eq d.fallback_model "" ≡ true
    → handle_json redis parse_duration glob up works h serve now r s
      ≡ admitted redis parse_duration glob up works h serve r true d s
unfolding handle_json fallen_back
json-admitted redis parse_duration glob up works h serve now r d s p q f = ground (arith, p, q, f)

-- For a request that can be read, and whose path and model route to a service without a fallback model,
-- handleMultipart and handleJSON give the same refusal and leave the same store, or both serve that service
-- from the same store, handleMultipart through proxyToInference, and handleJSON in whatever way it serves
-- the service; also where the path alone tells the service and the upload is streamed before its
-- model is read. The proxy may send the upload again unless it is large and the path tells the service.
pub handle_multipart-handle_json :
    (redis : Redis) (parse_duration : String → Option ℤ) (glob : String → String → Option Bool)
    (up : String → Bool) (works : SlotCalls) (h : SyncHandler) (pool_limiter : Option Limiter)
    (pool_semaphore : Option ModelSemaphore) (pool_works : SlotCalls) (net : Inference) {A : Type 0}
    (serve : Def → redis.Store → A × redis.Store) (now : ℕ) (r : HttpRequest) (d : Def)
    (s : redis.Store)
    → r.parses ≡ true
    → r.readable ≡ true
    → route_sync h.registry r.path r.model ≡ routed d
    → str_eq d.fallback_model "" ≡ true
    → Alike redis parse_duration glob up works h
        (proxied redis parse_duration glob up works h pool_limiter pool_semaphore pool_works net r
          (is_reusable h.registry r))
        serve
        d
        (handle_multipart redis parse_duration glob up works h pool_limiter pool_semaphore
          pool_works net r s)
        (handle_json redis parse_duration glob up works h serve now r s)
handle_multipart-handle_json redis parse_duration glob up works h pool_limiter pool_semaphore
      pool_works net serve now r d s p b q f =
    rw
      (
        multipart-admitted redis parse_duration glob up works h pool_limiter pool_semaphore
            pool_works net r d s p b q,
        json-admitted redis parse_duration glob up works h serve now r d s p q f,
      )
      (admitted-Alike redis parse_duration glob up works h
        (proxied redis parse_duration glob up works h pool_limiter pool_semaphore pool_works net r
          (is_reusable h.registry r))
        serve d r s)
