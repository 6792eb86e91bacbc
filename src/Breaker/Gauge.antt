-- ===== src/Breaker/Gauge.antt =====
-- breaker.go: the gauge by model and backend beside the circuit of the backend.
use gatew_ai.Base.{
  ℕ, ◌≡◌, refl, Bool, true, false, Option, none, some, String, arith, List, [], ◌∷◌, ==-ne, ◌≢◌,
  eq_iff, All, eq_refl,
}
use gatew_ai.Breaker.{
  BackendState, CircuitBreaker, Event, succeeded, failed, record_success, allow, step, run,
  success_state,
}

abbrev open_flag : Option BackendState → Bool
open_flag none = false
open_flag (some st) = st.is_open

abbrev shows_open : Option Bool → Bool
shows_open none = false
shows_open (some b) = b

-- The gauge of the model that a backend serves shows whether its circuit is open.
abbrev pub Shows : (String → String) → CircuitBreaker → Type 0
Shows owner cb =
    (url : String) → shows_open (cb.circuit_open (owner url) url) ≡ open_flag (cb.states url)

-- The report names the one model that serves its backend.
abbrev pub Owned : (String → String) → Event → Type 0
Owned owner (succeeded model url) = model ≡ owner url
Owned owner (failed model url now) = model ≡ owner url

success-Shows :
    (owner : String → String) (cb : CircuitBreaker) (url : String) (o : Option BackendState)
    (j : String)
    → o ≡ cb.states url
    → Shows owner cb
    → shows_open ((success_state cb (owner url) url o).circuit_open (owner j) j)
      ≡ open_flag ((success_state cb (owner url) url o).states j)
unfolding success_state
success-Shows owner cb url none j e h = h j
success-Shows owner cb url (some st) j e h =
    ground (arith, h j, h url, eq_iff url j, eq_iff (owner url) (owner j), eq_refl (owner url))

step-Shows :
    (owner : String → String) (cb : CircuitBreaker) (e : Event)
    → Owned owner e
    → Shows owner cb
    → Shows owner (step cb e)
unfolding step
step-Shows owner cb (succeeded model url) o h =
    λ j. rw o (success-Shows owner cb url (cb.states url) j refl h)
step-Shows owner cb (failed model url now) o h = λ j.
    ground (arith, h j, h url, o, eq_iff url j, eq_iff (owner url) (owner j), eq_refl (owner url))

-- While each backend is reported under one model, the gauge of that model is 1 exactly when the
-- backend's circuit is open.
pub run-Shows :
    (owner : String → String) (cb : CircuitBreaker) (es : List Event)
    → All (Owned owner) es
    → Shows owner cb
    → Shows owner (run cb es)
unfolding run
run-Shows owner cb [] o h = h
run-Shows owner cb (e ∷ es) o h = run-Shows owner (step cb e) es o.1 (step-Shows owner cb e o.0 h)

-- A backend that two models share: its circuit opened under one model, and a success under the other closes it, but the gauge of
-- the first stays at 1 although the backend is allowed again.
pub record_success-stale_gauge :
    (cb : CircuitBreaker) (first second url : String) (st : BackendState) (now : ℕ)
    → cb.states url ≡ some st
    → cb.circuit_open first url ≡ some true
    → second ≢ first
    → (allow (record_success cb second url) url now ≡ true)
      × ((record_success cb second url).circuit_open first url ≡ some true)
unfolding record_success allow success_state
record_success-stale_gauge cb first second url st now s g h =
    ground (arith, s, g, eq_refl url, ==-ne second first h)
