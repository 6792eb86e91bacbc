-- ===== src/Admission/Slots.antt =====
-- sync.go: a request gives back the slot of its model.
use gatew_ai.Base.{
  ℕ, ◌≡◌, ◌≢◌, refl, Bool, true, false, not, ◌&&◌, ◌||◌, Option, none, some, String, eq_iff,
  prefix-ne, ltb, arith, Bool-cases, Option-cases, inl, inr, if◌then◌else◌,
}
use gatew_ai.Base.Int.{ℤ}
use gatew_ai.Redis.{Redis}
use gatew_ai.RateLimit.{Limiter, Request, Identity}
use gatew_ai.RateLimit.Requests.{check, service_key, policy_key}
use gatew_ai.RateLimit.Requests.Keys.{get-check_ne}
use gatew_ai.RateLimit.Tokens.{check_processing_time}
use gatew_ai.Semaphore.{both_reach, ModelSemaphore, count_of, shared_key, reserved_key}
use gatew_ai.Semaphore.Calls.{IsHeld, try_acquire_lem, release_lem, refused-IsHeld, granted-IsHeld}
use gatew_ai.Registry.Configs.{Def}
use gatew_ai.Registry.Routes.{routed, route_sync}
use gatew_ai.Admission.{
  SyncHandler, HttpRequest, Answer, unreadable, fallen_back, model_visible, check_access,
  rate_checked, time_checked, slot_taken, is_priority, admitted, handle_json,
}

module _ (sem : ModelSemaphore) (name service : String) (i : Identity) where
  service-shared_ne : service_key service i ≢ shared_key sem name
  unfolding shared_key
  service-shared_ne =
      prefix-ne "rl:" "gat" "eway:semaphore:" _ _ refl (ground (arith, eq_iff "rl:" "gat"))

  service-reserved_ne : service_key service i ≢ reserved_key sem name
  unfolding reserved_key
  service-reserved_ne =
      prefix-ne "rl:" "gat" "eway:semaphore:" _ _ refl (ground (arith, eq_iff "rl:" "gat"))

  policy-shared_ne : policy_key service i ≢ shared_key sem name
  unfolding shared_key
  policy-shared_ne =
      prefix-ne "rlp:" "gate" "way:semaphore:" _ _ refl (ground (arith, eq_iff "rlp:" "gate"))

  policy-reserved_ne : policy_key service i ≢ reserved_key sem name
  unfolding reserved_key
  policy-reserved_ne =
      prefix-ne "rlp:" "gate" "way:semaphore:" _ _ refl (ground (arith, eq_iff "rlp:" "gate"))

module _ (redis : Redis) (parse_duration : String → Option ℤ) (glob : String → String → Option Bool)
    (up : String → Bool) (h : SyncHandler) {A : Type 0}
    (serve : Def → redis.Store → A × redis.Store) (sem : ModelSemaphore) (d : Def) (m k : ℕ)
    (limited_by : h.semaphore ≡ some sem)
    (kept : (x y : ℕ) (t : redis.Store)
      → IsHeld redis sem d.model m k x y t
      → IsHeld redis sem d.model m k x y (serve d t).1) where
  open redis use {Store}

  check-IsHeld :
      (l : Limiter) (r : Request) (cs cr : ℕ) (s : Store)
      → IsHeld redis sem d.model m k cs cr s
      → IsHeld redis sem d.model m k cs cr (check redis parse_duration l up r d.service_type s).1
  unfolding count_of
  check-IsHeld l r cs cr s held =
      let name = d.model in
      let service = d.service_type in
      let keeps =
        λ (j : String) (own : (i : Identity) → service_key service i ≢ j)
            (policy : (i : Identity) → policy_key service i ≢ j).
          get-check_ne redis parse_duration up j l r service s own policy in
      record {
        limit = held.limit;
        reservation = held.reservation;
        shared_count =
            rw
              (keeps (shared_key sem name) (service-shared_ne sem name service)
                (policy-shared_ne sem name service))
              held.shared_count;
        reserved_count =
            rw
              (keeps (reserved_key sem name) (service-reserved_ne sem name service)
                (policy-reserved_ne sem name service))
              held.reserved_count;
      }

  module _ (cs cr : ℕ) where
    abbrev Holds : Store → Type 0
    Holds s = IsHeld redis sem d.model m k cs cr s

    rate-Holds :
        (l : Option Limiter) (r : Request) (s : Store) (next : Store → Answer A × Store)
        → ((t : Store) → Holds t → Holds (next t).1)
        → Holds s
        → Holds (rate_checked redis parse_duration glob up both_reach h serve l r d s next).1
    unfolding rate_checked
    rate-Holds none r s next goes held = goes s held
    rate-Holds (some l) r s next goes held =
        let (reply, after) = check redis parse_duration l up r d.service_type s in
        let there = check-IsHeld l r cs cr s held in
        elim (Option-cases reply.error) [
          | inr (x, f) ↦ rw (rate_checked, f) (goes after there)
          | inl f ↦ elim (Bool-cases reply.result.allowed) [
            | inl g ↦ rw (rate_checked, f, g) (goes after there)
            | inr g ↦ rw (rate_checked, f, g) there
          ]
        ]

    time-Holds :
        (l : Option Limiter) (r : Request) (s : Store) (next : Store → Answer A × Store)
        → ((t : Store) → Holds t → Holds (next t).1)
        → Holds s
        → Holds (time_checked redis parse_duration glob up both_reach h serve l r d s next).1
    unfolding time_checked
    time-Holds none r s next goes held = goes s held
    time-Holds (some l) r s next goes held =
        let reply = check_processing_time redis parse_duration l up r d.service_type s in
        elim (Option-cases reply.error) [
          | inr (x, f) ↦ rw (time_checked, f) (goes s held)
          | inl f ↦ elim (Bool-cases reply.result.allowed) [
            | inl g ↦ rw (time_checked, f, g) (goes s held)
            | inr g ↦ rw (time_checked, f, g) held
          ]
        ]

    slot-Holds :
        (priority : Bool) (s : Store)
        → Holds s
        → Holds
            (slot_taken redis parse_duration glob up both_reach h serve (some sem) priority d s).1
    unfolding slot_taken
    slot-Holds priority s held =
        let (granted, used, taken) = try_acquire_lem redis sem d.model m k cs cr priority s held in
        let reserved = priority && ltb cr k in
        elim (Bool-cases (reserved || ltb cs m)) [
          | inl e ↦
              let one = granted-IsHeld redis sem d.model m k cs cr reserved (ltb cs m) _ e taken in
              rw (granted, e, used)
                (release_lem redis sem d.model m k cs cr reserved _ (kept _ _ _ one))
          | inr e ↦
              rw (granted, e)
                (refused-IsHeld redis sem d.model m k cs cr reserved (ltb cs m) _ e taken)
        ]

    last-Holds :
        (r : HttpRequest) (readable : Bool) (s : Store)
        → Holds s
        → Holds
            (if not readable
              then (unreadable, s)
              else slot_taken redis parse_duration glob up both_reach h serve h.semaphore
                  (is_priority h r)
                  d
                  s).1
    unfolding is_priority slot_taken
    last-Holds r false s held = held
    last-Holds r true s held = rw limited_by (slot-Holds (is_priority h r) s held)

    admitted-IsHeld :
        (r : HttpRequest) (readable : Bool) (s : Store)
        → IsHeld redis sem d.model m k cs cr s
        → IsHeld redis sem d.model m k cs cr
            (admitted redis parse_duration glob up both_reach h serve r readable d s).1
    unfolding admitted
    admitted-IsHeld r readable s held =
        let decision = check_access glob h.authz r d in
        let request : Request = record { header = r.header; policy = decision.limits } in
        elim (Bool-cases (model_visible h r d)) [
          | inr f ↦ rw (admitted, f) held
          | inl f ↦ elim (Bool-cases decision.allowed) [
            | inr g ↦ rw (admitted, f, g) held
            | inl g ↦
                rw (admitted, f, g)
                  (rate-Holds h.rate_limiter request s _
                    (λ t.
                      time-Holds h.processing_limiter request t _ (λ u. last-Holds r readable u))
                    held)
          ]
        ]

    -- Where the acquire and the release script of the model's semaphore both reach the server: on every way
    -- out of a JSON request for the model, which may be a fallback, as many slots of the model are held
    -- as before it: it cannot be read, it is hidden, forbidden, over its rate or out of its budget,
    -- it finds no slot, or it is served, by something that itself leaves the counts as they are.
    pub handle_json-IsHeld :
        (now : ℕ) (r : HttpRequest) (found : Def) (s : Store)
        → route_sync h.registry r.path r.model ≡ routed found
        → fallen_back h now r.path found ≡ d
        → IsHeld redis sem d.model m k cs cr s
        → IsHeld redis sem d.model m k cs cr
            (handle_json redis parse_duration glob up both_reach h serve now r s).1
    unfolding handle_json
    handle_json-IsHeld now r found s q f held = elim (Bool-cases r.parses) [
      | inr e ↦ rw (handle_json, e) held
      | inl e ↦ rw (handle_json, e, q, f) (admitted-IsHeld r true s held)
    ]
