-- ===== src/Proxy/Examples.antt =====
-- llmproxy/handler.go: the theorems for two backends, of which the heavier one fails.
use mathlib.Core.Logic.Or
use mathlib.Core.HLevel.{⊥_prop}
use mathlib.Core.List.{
  Mem, Nodup, Nodup-cons, Nodup-nil, mem-cons_self, mem-cons_of_mem, mem-cons, not-mem-nil,
}
use gatew_ai.Base.{
  ◌<◌, ◌≡◌, refl, inl, true, none, some, String, str_eq, List, [], ◌∷◌, if◌then◌else◌, arith,
  eq_iff,
}
use gatew_ai.Base.Int.{pos}
use gatew_ai.Redis.Memory.{memory, empty}
use gatew_ai.RateLimit.Examples.{minute, reachable}
use gatew_ai.Backends.{Backend, positives, total_weight}
use gatew_ai.Backends.Examples.{backend}
use gatew_ai.Breaker.{new_circuit_breaker, allow, record_failure, record_success}
use gatew_ai.Proxy
use gatew_ai.Proxy.{
  Response, Upstream, Forwarded, served, Target, permits, World, forward, serve, turn_of, pooled,
  answered, after_failure, after_success,
}
use gatew_ai.Proxy.Forwarding.{Distinct, AllBuild, outcome, forward-outcome}
use gatew_ai.Proxy.Serving.{urls, IsUsable, serve-IsUsable}

abbrev target : Target
target = record { model = "m"; backend_model = ""; pool_name = "" }

abbrev fine : Response
fine = record { status = 200; body = "hello" }

abbrev broken : Response
broken = record { status = 502; body = "" }

abbrev net : Upstream
net = record {
  builds = λ b. true;
  answer = λ b. if str_eq b.url "a" then some fine else some broken;
  turn = λ b. 10;
  failed_at = λ b. 20;
}

abbrev two : List Backend
two = backend "b" 3 ∷ backend "a" 1 ∷ []

abbrev world : World (memory.Store)
world = record { breaker = some (new_circuit_breaker (pos 2) (pos 100)); store = empty }

first_failed : (forward memory minute none reachable target net 0 two world).0 ≡ served "" "a" fine
unfolding forward turn_of pooled answered Proxy.failed permits after_failure after_success allow
    record_failure record_success new_circuit_breaker
first_failed = refl

two-Distinct : Distinct two
two-Distinct = ground arith

two-AllBuild : AllBuild memory minute none reachable target net two
two-AllBuild = ground arith

forward-outcome_example :
    (forward memory minute none reachable target net 0 two world).0
    ≡ outcome target net world.breaker two
forward-outcome_example =
    forward-outcome memory minute none reachable target net two world refl two-Distinct two-AllBuild

in_range : 2 < total_weight (positives two)
unfolding total_weight positives
in_range = omega arith

b-absent : ¬ Mem {A = String} "b" ("a" ∷ [])
b-absent m =
    Or.elim ⊥_prop (mem-cons.0 m) (λ e. ground (arith, e, eq_iff "b" "a")) (λ k. not-mem-nil k)

two-Nodup : Nodup (urls two)
two-Nodup = Nodup-cons.1 (b-absent, Nodup-cons.1 (not-mem-nil, Nodup-nil))

usable : IsUsable target net world.breaker (backend "a" 1)
unfolding permits allow new_circuit_breaker
usable = (refl, fine, refl, omega arith)

serve-IsUsable_example :
    (model url : String) × (resp : Response) × (after : World (memory.Store)) × (serve memory minute
        none reachable target net 2 two world
      ≡ some (served model url resp, after))
    × (resp.status < 500)
serve-IsUsable_example =
    serve-IsUsable memory minute none reachable target net 2 two world (backend "a" 1)
      (inl in_range) refl (λ c. refl) two-Nodup (mem-cons_of_mem _ (mem-cons_self)) usable
