-- ===== src/Breaker/Bounds.antt =====
-- breaker.go: a circuit is open exactly when its failure count has reached the threshold.
use gatew_ai.Base.{ℕ, ◌<◌, ◌≡◌, Option, none, some, String, leb, arith, List, [], ◌∷◌}
use gatew_ai.Base.Int.{ℤ}
use gatew_ai.Breaker.{
  BackendState, CircuitBreaker, Event, succeeded, failed, new_circuit_breaker, record_success,
  record_failure, step, run, success_state,
}

abbrev pub Agrees : ℕ → Option BackendState → Type 0
Agrees threshold none = Unit {0}
Agrees threshold (some st) = st.is_open ≡ leb threshold st.failures

pub record IsValid (cb : CircuitBreaker) : Type 0 where
  pub positive : 0 < cb.threshold
  pub agrees : (url : String) → Agrees cb.threshold (cb.states url)

pub new-IsValid : (threshold cooldown : ℤ) → IsValid (new_circuit_breaker threshold cooldown)
unfolding new_circuit_breaker
new-IsValid threshold cooldown = record { positive = ground arith; agrees = λ url. tt }

success-Agrees :
    (cb : CircuitBreaker) (model url : String) (o : Option BackendState) (j : String)
    → 0 < cb.threshold
    → Agrees cb.threshold (cb.states j)
    → Agrees (success_state cb model url o).threshold ((success_state cb model url o).states j)
unfolding success_state
success-Agrees cb model url none j p h = h
success-Agrees cb model url (some st) j p h = ground arith

record_success-IsValid :
    (cb : CircuitBreaker) (model url : String) → IsValid cb → IsValid (record_success cb model url)
unfolding record_success
record_success-IsValid cb model url v = record {
  positive = ground (arith, v.positive);
  agrees = λ j. success-Agrees cb model url (cb.states url) j v.positive (v.agrees j);
}

record_failure-IsValid :
    (cb : CircuitBreaker) (model url : String) (now : ℕ)
    → IsValid cb
    → IsValid (record_failure cb model url now)
unfolding record_failure
record_failure-IsValid cb model url now v = record {
  positive = ground (arith, v.positive);
  agrees = λ j. ground (arith, v.positive, v.agrees j, v.agrees url);
}

pub step-IsValid : (cb : CircuitBreaker) (e : Event) → IsValid cb → IsValid (step cb e)
unfolding step
step-IsValid cb (succeeded model url) v = record_success-IsValid cb model url v
step-IsValid cb (failed model url now) v = record_failure-IsValid cb model url now v

-- Whatever is reported to a valid breaker, in any order, every circuit stays open exactly when its
-- failure count has reached the threshold, and the threshold stays positive.
pub run-IsValid : (cb : CircuitBreaker) (es : List Event) → IsValid cb → IsValid (run cb es)
unfolding run
run-IsValid cb [] v = v
run-IsValid cb (e ∷ es) v = run-IsValid (step cb e) es (step-IsValid cb e v)
