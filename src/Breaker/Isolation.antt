-- ===== src/Breaker/Isolation.antt =====
-- breaker.go: the backends' circuits do not disturb one another.
use gatew_ai.Base.{
  ◌≡◌, refl, false, String, str_eq, arith, List, [], ◌∷◌, if◌then◌else◌, ==-cases, inl, inr, eq_iff,
}
use gatew_ai.Breaker.{CircuitBreaker, Event, succeeded, failed, step, run, success_state}

abbrev pub url_of : Event → String
url_of (succeeded model url) = url
url_of (failed model url now) = url

-- The reports about one backend, in their order.
abbrev pub about : String → List Event → List Event
about url [] = []
about url (e ∷ es) = if str_eq (url_of e) url then e ∷ about url es else about url es

-- Two breakers that treat one backend alike.
abbrev pub Alike : String → CircuitBreaker → CircuitBreaker → Type 0
Alike url a b =
    (a.states url ≡ b.states url) × (a.threshold ≡ b.threshold) × (a.cooldown ≡ b.cooldown)

pub step-Alike_ne :
    (cb : CircuitBreaker) (e : Event) (url : String)
    → str_eq (url_of e) url ≡ false
    → Alike url (step cb e) cb
unfolding step success_state
step-Alike_ne cb (succeeded model j) url h = ground arith
step-Alike_ne cb (failed model j now) url h = ground arith

step-Alike :
    (a b : CircuitBreaker) (e : Event) (url : String)
    → url_of e ≡ url
    → Alike url a b
    → Alike url (step a e) (step b e)
unfolding step success_state
step-Alike a b (succeeded model j) url h k = ground (arith, eq_iff j url)
step-Alike a b (failed model j now) url h k = ground (arith, eq_iff j url)

run-Alike :
    (a b : CircuitBreaker) (es : List Event) (url : String)
    → Alike url a b
    → Alike url (run a es) (run b (about url es))
unfolding run
run-Alike a b [] url h = h
run-Alike a b (e ∷ es) url h = elim (==-cases (url_of e) url) [
  | inl (same, test) ↦
      rw test (run-Alike (step a e) (step b e) es url (step-Alike a b e url same h))
  | inr (other, test) ↦
      rw test (run-Alike (step a e) b es url (ground (arith, step-Alike_ne a e url test)))
]

-- What becomes of a backend's circuit depends on the reports about that backend alone.
pub states-run-about :
    (cb : CircuitBreaker) (es : List Event) (url : String)
    → (run cb es).states url ≡ (run cb (about url es)).states url
states-run-about cb es url = (run-Alike cb cb es url (refl, refl, refl)).0
