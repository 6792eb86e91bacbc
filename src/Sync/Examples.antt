-- ===== src/Sync/Examples.antt =====
-- handler/sync.go: the theorems for two backends that fail at first.
use mathlib.Core.List.{mem-cons_self}
use gatew_ai.Base.{
  ◌≤◌, ◌<◌, ◌≡◌, ◌↔◌, ◌&&◌, ◌||◌, refl, inl, true, false, none, some, String, str_eq, ltb, List, [],
  ◌∷◌, length, if◌then◌else◌, arith, update, eq_iff,
}
use gatew_ai.Base.Int.{pos, negsuc}
use gatew_ai.Redis.Memory.{memory, empty}
use gatew_ai.RateLimit.Examples.{minute, reachable}
use gatew_ai.Backends.{Backend, positives, total_weight}
use gatew_ai.Backends.Examples.{backend}
use gatew_ai.Semaphore.{both_reach, ModelSemaphore, count_of}
use gatew_ai.Semaphore.Calls.{IsHeld}
use gatew_ai.Proxy.{Response}
use gatew_ai.Sync.{Service, Inference, forwarded, too_busy, proxy_to_inference}
use gatew_ai.Sync.Bounds.{most_requests, proxy_to_inference-sent}
use gatew_ai.Sync.Delivery.{proxy_to_inference-Answers}
use gatew_ai.Sync.Slots.{proxy_to_inference-IsHeld}

abbrev two : List Backend
two = backend "b" 3 ∷ backend "a" 1 ∷ []

abbrev service : Service
service = record { pool_name = ""; retries = pos 2; backends = two }

abbrev fine : Response
fine = record { status = 200; body = "hello" }

-- Backend "b" answers from the second attempt on.
abbrev net : Inference
net = record {
  parses = λ b. true;
  builds = λ b. true;
  answer = λ n b. if str_eq b.url "b" then (if ltb 0 n then some fine else none) else none;
  draw = λ n. 2;
  cancelled = λ n. false;
}

proxy_to_inference-sent_example :
    length
      (proxy_to_inference memory minute none reachable service net true none both_reach false
        empty).1.sent
    ≤ most_requests memory minute none reachable service net true
proxy_to_inference-sent_example =
    proxy_to_inference-sent memory minute none reachable service net true none both_reach false
      empty

abbrev negative : Service
negative = record service { retries = negsuc 0 }

in_range : 2 < total_weight (positives two)
unfolding total_weight positives
in_range = omega arith

proxy_to_inference-Answers_example :
    (url : String) × (resp : Response) × ((proxy_to_inference memory minute none reachable service
        net true none both_reach false empty).0
      ≡ forwarded url resp)
    × (resp.status < 500)
proxy_to_inference-Answers_example =
    proxy_to_inference-Answers memory minute none reachable service net true refl refl (λ b. refl)
      (λ b. refl) none both_reach false empty 1 (backend "b" 3) (omega arith) (λ i. inl in_range)
      (λ i. refl) mem-cons_self (fine, refl, omega arith)

abbrev pooled_service : Service
pooled_service = record service { pool_name = "gpu" }

abbrev sem : ModelSemaphore
sem = record {
  limits = update "gpu" (some (pos 2)) (λ _. none);
  reserved = update "gpu" (some (pos 1)) (λ _. none);
  key_prefix = "pool";
}

none-IsHeld : IsHeld memory sem "gpu" 2 1 0 0 empty
unfolding count_of
none-IsHeld = record {
  limit = refl;
  reservation = refl;
  shared_count = refl;
  reserved_count = refl;
}

proxy_to_inference-IsHeld_example :
    let (out, w) =
      proxy_to_inference memory minute none reachable pooled_service net true
        (some sem)
        both_reach
        true
        empty in
    ((out ≡ too_busy) ↔ ((true && ltb 0 1 || ltb 0 2) ≡ false))
    × IsHeld memory sem "gpu" 2 1 0 0 w.store
proxy_to_inference-IsHeld_example =
    proxy_to_inference-IsHeld memory minute none reachable pooled_service net true sem 2 1 0 0 true
      empty (λ e. ground (arith, e, eq_iff "gpu" "")) (λ e. ground (arith, e)) none-IsHeld
