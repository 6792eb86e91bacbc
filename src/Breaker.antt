-- ===== src/Breaker.antt =====
-- internal/llmproxy/breaker.go: the circuit breaker of the LLM proxy. A method under the mutex is
-- one function from the breaker to the breaker; the clock's reading (ns) is an argument, and so are
-- the gauge and the counter that `RecordFailure` and `RecordSuccess` write.
pub mod Bounds
pub mod Opening
pub mod Isolation
pub mod Gauge
pub mod Examples
use gatew_ai.Base.{
  ℕ, suc, ◌+◌, ◌*◌, ◌≤◌, ◌≡◌, Bool, true, false, not, ◌&&◌, Option, none, some, String, ltb, leb,
  update, update₂, if◌then◌else◌, List, [], ◌∷◌,
}
use gatew_ai.Base.Int.{ℤ, pos, pos_part, leb_ℤ}

pub record BackendState : Type 0 where
  pub failures : ℕ
  pub is_open : Bool
  pub open_until : ℕ  -- ns

pub record CircuitBreaker : Type 0 where
  pub states : String → Option BackendState
  pub threshold : ℕ
  pub cooldown : ℕ  -- ns
  pub circuit_open : String → String → Option Bool  -- gauge by model and url; none: never set
  pub opens_total : String → String → ℕ

unfoldable pub new_circuit_breaker : ℤ → ℤ → CircuitBreaker
new_circuit_breaker threshold cooldown = record {
  states = λ _. none;
  threshold = if leb_ℤ threshold (pos 0) then 5 else pos_part threshold;
  cooldown = if leb_ℤ cooldown (pos 0) then 30 * 1_000_000_000 else pos_part cooldown;
  circuit_open = λ _ _. none;
  opens_total = λ _ _. 0;
}

-- `time.Now()` is `now` in what follows.
abbrev allow_state : Option BackendState → ℕ → Bool
allow_state none now = true
allow_state (some st) now = if not st.is_open then true else not (ltb now st.open_until)

unfoldable pub allow : CircuitBreaker → String → ℕ → Bool
allow cb url now = allow_state (cb.states url) now

abbrev is_open_state : Option BackendState → ℕ → Bool
is_open_state none now = false
is_open_state (some st) now = st.is_open && ltb now st.open_until

unfoldable pub is_open : CircuitBreaker → String → ℕ → Bool
is_open cb url now = is_open_state (cb.states url) now

success_state : CircuitBreaker → String → String → Option BackendState → CircuitBreaker
success_state cb model url none = cb
success_state cb model url (some st) =
    let metered =
      if st.is_open
      then record cb { circuit_open = update₂ model url (some false) cb.circuit_open }
      else cb in
    record metered {
      states = update url (some (record st { failures = 0; is_open = false })) cb.states;
    }

unfoldable pub record_success : CircuitBreaker → String → String → CircuitBreaker
unfolding success_state
record_success cb model url = success_state cb model url (cb.states url)

abbrev or_new : Option BackendState → BackendState
or_new none = record { failures = 0; is_open = false; open_until = 0 }
or_new (some st) = st

failed_state : CircuitBreaker → String → String → ℕ → BackendState → CircuitBreaker
failed_state cb model url now st =
    let store = λ (s : BackendState). update url (some s) cb.states in
    if st.is_open
    then record cb { states = store (record st { open_until = now + cb.cooldown }) }
    else if leb cb.threshold st.failures
    then record cb {
      states = store (record st { is_open = true; open_until = now + cb.cooldown });
      circuit_open = update₂ model url (some true) cb.circuit_open;
      opens_total = update₂ model url (suc (cb.opens_total model url)) cb.opens_total;
    }
    else record cb { states = store st }

unfoldable pub record_failure : CircuitBreaker → String → String → ℕ → CircuitBreaker
unfolding failed_state
record_failure cb model url now =
    let st = or_new (cb.states url) in
    failed_state cb model url now (record st { failures = suc st.failures })

-- What the proxy reports to the breaker, with the time of the report.
pub data Event : Type 0 where
  succeeded : (model url : String) → Event
  failed : (model url : String) (now : ℕ) → Event

unfoldable pub step : CircuitBreaker → Event → CircuitBreaker
unfolding record_success record_failure
step cb (succeeded model url) = record_success cb model url
step cb (failed model url now) = record_failure cb model url now

unfoldable pub run : CircuitBreaker → List Event → CircuitBreaker
run cb [] = cb
run cb (e ∷ es) = run (step cb e) es
