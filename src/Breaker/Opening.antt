-- ===== src/Breaker/Opening.antt =====
-- breaker.go: when a circuit opens, and for how long it refuses.
use gatew_ai.Base.{
  ℕ, suc, ◌+◌, ◌≡◌, true, not, Option, none, some, String, leb, arith, List, [], ◌∷◌, ◌++◌, map,
  ◌∙◌, if◌then◌else◌, length, eq_refl,
}
use gatew_ai.Breaker.{
  BackendState, CircuitBreaker, Event, succeeded, failed, record_success, record_failure, step, run,
  success_state, allow, is_open,
}
use gatew_ai.Breaker.Bounds.{IsValid, step-IsValid}

abbrev pub count_of : Option BackendState → ℕ
count_of none = 0
count_of (some st) = st.failures

-- The failures of one backend since its last success, as the breaker counts them.
abbrev pub failures_of : CircuitBreaker → String → ℕ
failures_of cb url = count_of (cb.states url)

-- Failed calls of one backend, by their times.
abbrev pub failures_at : String → String → List ℕ → List Event
failures_at model url = map (failed model url)

failure_config :
    (cb : CircuitBreaker) (model url : String) (now : ℕ)
    → ((record_failure cb model url now).threshold ≡ cb.threshold)
      × ((record_failure cb model url now).cooldown ≡ cb.cooldown)
      × (failures_of (record_failure cb model url now) url ≡ suc (failures_of cb url))
unfolding record_failure
failure_config cb model url now = ground (arith, eq_refl url)

failure_allow :
    (cb : CircuitBreaker) (model url : String) (t now : ℕ)
    → IsValid cb
    → allow (record_failure cb model url t) url now
      ≡ (if leb cb.threshold (suc (failures_of cb url)) then leb (t + cb.cooldown) now else true)
unfolding record_failure allow
failure_allow cb model url t now v = ground (arith, eq_refl url, v.positive, v.agrees url)

success_config :
    (cb : CircuitBreaker) (model url : String)
    → ((record_success cb model url).threshold ≡ cb.threshold)
      × ((record_success cb model url).cooldown ≡ cb.cooldown)
      × (failures_of (record_success cb model url) url ≡ 0)
unfolding record_success success_state
success_config cb model url = ground (arith, eq_refl url)

success_allow :
    (cb : CircuitBreaker) (model url : String) (now : ℕ)
    → allow (record_success cb model url) url now ≡ true
unfolding record_success success_state allow
success_allow cb model url now = ground (arith, eq_refl url)

-- The two questions that the proxy asks are opposite at every time.
pub allow-is_open :
    (cb : CircuitBreaker) (url : String) (now : ℕ) → allow cb url now ≡ not (is_open cb url now)
unfolding allow is_open
allow-is_open cb url now = ground arith

-- After any failures of a backend, the last of them at `t`, it is refused exactly if they and those
-- counted before make up the threshold, and then until the cooldown after `t` has passed.
pub allow-failures :
    (cb : CircuitBreaker) (model url : String) (ts : List ℕ) (t now : ℕ)
    → IsValid cb
    → allow (run cb (failures_at model url (ts ++ t ∷ []))) url now ≡ (
        if leb cb.threshold (failures_of cb url + length ts + 1)
        then leb (t + cb.cooldown) now
        else true)
unfolding run step
allow-failures cb model url [] t now v = failure_allow cb model url t now v ∙ ground arith
allow-failures cb model url (u ∷ ts) t now v =
    let (same_threshold, same_cooldown, counted) = failure_config cb model url u in
    allow-failures (record_failure cb model url u) model url ts t now
      (step-IsValid cb (failed model url u) v)
    ∙ ground (arith, same_threshold, same_cooldown, counted)

-- A circuit closes at a success, and opens again at the threshold-th failure in a row since.
pub allow-success-failures :
    (cb : CircuitBreaker) (model url : String) (ts : List ℕ) (t now : ℕ)
    → IsValid cb
    → (allow (record_success cb model url) url now ≡ true)
      × (allow (run (record_success cb model url) (failures_at model url (ts ++ t ∷ []))) url now
          ≡ (if leb cb.threshold (length ts + 1) then leb (t + cb.cooldown) now else true))
unfolding step
allow-success-failures cb model url ts t now v =
    let (same_threshold, same_cooldown, counted) = success_config cb model url in
    let after =
      allow-failures (record_success cb model url) model url ts t now
        (step-IsValid cb (succeeded model url) v) in
    (success_allow cb model url now, after ∙ ground (arith, same_threshold, same_cooldown, counted))
