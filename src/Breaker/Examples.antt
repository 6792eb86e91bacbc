-- ===== src/Breaker/Examples.antt =====
-- breaker.go: runs of the breaker, and the theorems at concrete reports.
use gatew_ai.Base.{
  ℕ, ◌+◌, ◌≡◌, refl, Bool, true, false, leb, if◌then◌else◌, List, [], ◌∷◌, ◌++◌, length,
}
use gatew_ai.Base.Int.{pos, negsuc}
use gatew_ai.Breaker.{
  CircuitBreaker, Event, succeeded, failed, new_circuit_breaker, record_success, allow, step, run,
}
use gatew_ai.Breaker.Bounds.{IsValid, new-IsValid, run-IsValid}
use gatew_ai.Breaker.Opening.{failures_at, allow-success-failures}

-- Two failures open a circuit for 100 ns.
abbrev small : CircuitBreaker
small = new_circuit_breaker (pos 2) (pos 100)

abbrev reports : List Event
reports = failed "m" "a" 10 ∷ failed "m" "b" 11 ∷ failed "m" "a" 20 ∷ succeeded "m" "b" ∷ []

abbrev opened : CircuitBreaker
opened = run small reports

defaults : (new_circuit_breaker (negsuc 0) (pos 0)).threshold ≡ 5
unfolding new_circuit_breaker
defaults = refl

refused_then_probed :
    ◌≡◌ {A = List Bool}
      (allow opened "a" 119 ∷ allow opened "a" 120 ∷ allow opened "b" 21 ∷ [])
      (false ∷ true ∷ true ∷ [])
unfolding run step allow new_circuit_breaker
refused_then_probed = refl

small-IsValid : IsValid small
small-IsValid = new-IsValid (pos 2) (pos 100)

allow-success-failures_example :
    (allow (record_success opened "m" "a") "a" 60 ≡ true)
    × (allow
          (run (record_success opened "m" "a") (failures_at "m" "a" ((30 ∷ []) ++ 40 ∷ [])))
          "a"
          60
        ≡ (if leb opened.threshold (length {A = ℕ} (30 ∷ []) + 1)
            then leb (40 + opened.cooldown) 60
            else true))
allow-success-failures_example =
    allow-success-failures opened "m" "a" (30 ∷ []) 40 60 (run-IsValid small reports small-IsValid)
