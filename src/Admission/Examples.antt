-- ===== src/Admission/Examples.antt =====
-- sync.go: a chat model whose backend is down, with a fallback on the same path.
use gatew_ai.Base.{◌≡◌, refl, Bool, true, false, Option, none, some, String, [], ◌∷◌}
use gatew_ai.Base.Int.{pos, ◌+ℤ◌}
use gatew_ai.Redis.Memory.{memory, empty}
use gatew_ai.RateLimit.Examples.{minute, reachable}
use gatew_ai.Breaker.{CircuitBreaker, is_open}
use gatew_ai.Semaphore.{
  both_reach, ModelSemaphore, count_of, shared_key, acquire_script, try_acquire,
}
use gatew_ai.Semaphore.Calls.{IsHeld}
use gatew_ai.Registry.Configs.{Def, is_restricted}
use gatew_ai.Registry.Maps.{lookup}
use gatew_ai.Registry.Indices.{Registry, no_services}
use gatew_ai.Registry.Routes.{routed, route_sync, route_models}
use gatew_ai.Admission.{
  SyncHandler, HttpRequest, served, fallen_back, backends_degraded, all_open, model_visible,
  check_access, handle_json,
}
use gatew_ai.Admission.Serving.{StandsFor, IsGiven, served-handle_json}
use gatew_ai.Sync.{Inference}
use gatew_ai.Admission.Alike.{Alike}
use gatew_ai.Admission.Multipart.{
  is_reusable, proxied, handle_multipart, handle_multipart-handle_json,
}
use gatew_ai.Admission.Slots.{handle_json-IsHeld}

abbrev big : Def
big = record {
  service_type = "llm";
  model = "big";
  max_file_size_mb = 0;
  inference_url = "http://a";
  backends = record { url = "http://a"; weight = 1; headers = []; model = "" } ∷ [];
  pool_name = "";
  operations = [];
  provider = "openai";
  backend_model = "";
  budget_group = "";
  fallback_model = "small";
  retries = pos 0;
  visibility = record { user_types = []; groups = [] };
}

abbrev pub small : Def
small = record big { model = "small"; fallback_model = "" }

abbrev chat : Registry
chat = record no_services { by_sync = ("/v1/chat", ("big", big) ∷ ("small", small) ∷ []) ∷ [] }

abbrev down : CircuitBreaker
down = record {
  states = λ url. some (record { failures = 5; is_open = true; open_until = 9 });
  threshold = 5;
  cooldown = 9;
  circuit_open = λ m u. none;
  opens_total = λ m u. 0;
}

abbrev two_slots : ModelSemaphore
two_slots = record { limits = λ _. some (pos 2); reserved = λ _. none; key_prefix = "" }

abbrev pub handler : SyncHandler
handler = record {
  registry = chat;
  authz = none;
  rate_limiter = none;
  processing_limiter = none;
  semaphore = some two_slots;
  breaker = some down;
  priority_header = "";
  user_type_header = "";
}

abbrev pub asks : String → HttpRequest
asks model = record {
  path = "/v1/chat";
  model = model;
  header = λ k. "";
  principal = none;
  parses = true;
  small = true;
  readable = true;
}

abbrev pub glob : String → String → Option Bool
glob p value = some false

abbrev serve : Def → memory.Store → String × memory.Store
serve d s = (d.model, s)

routed-big : route_sync chat "/v1/chat" "big" ≡ routed big
unfolding route_sync route_models lookup
routed-big = refl

routed-small : route_sync chat "/v1/chat" "small" ≡ routed small
unfolding route_sync route_models lookup
routed-small = refl

small_instead : fallen_back handler 0 "/v1/chat" big ≡ small
unfolding fallen_back backends_degraded all_open route_sync route_models lookup is_open
small_instead = refl

small_served :
    (handle_json memory minute glob reachable both_reach handler serve 0 (asks "big") empty).0
    ≡ served small "small"
unfolding handle_json route_sync lookup model_visible is_restricted fallen_back is_open check_access
    try_acquire acquire_script shared_key ◌+ℤ◌
small_served = refl

served-handle_json_example :
    ((d : Def) × (route_sync chat "/v1/chat" "big" ≡ routed d)
      × StandsFor handler 0 "/v1/chat" d small)
    × (model_visible handler (asks "big") small ≡ true)
    × ((check_access glob none (asks "big") small).allowed ≡ true)
    × IsGiven memory minute glob reachable both_reach handler serve small "small"
served-handle_json_example =
    served-handle_json memory minute glob reachable both_reach handler serve 0 (asks "big") small
      "small" empty small_served

abbrev net : Inference
net = record {
  parses = λ b. true;
  builds = λ b. true;
  answer = λ n b. some (record { status = 200; body = b.url });
  draw = λ n. 0;
  cancelled = λ n. false;
}

handle_multipart-handle_json_example :
    Alike memory minute glob reachable both_reach handler
      (proxied memory minute glob reachable both_reach handler none none both_reach net
        (asks "small")
        (is_reusable chat (asks "small")))
      serve
      small
      (handle_multipart memory minute glob reachable both_reach handler none none both_reach net
        (asks "small")
        empty)
      (handle_json memory minute glob reachable both_reach handler serve 0 (asks "small") empty)
handle_multipart-handle_json_example =
    handle_multipart-handle_json memory minute glob reachable both_reach handler none none
      both_reach net serve 0 (asks "small") small empty refl refl routed-small refl

none-IsHeld : IsHeld memory two_slots "small" 2 0 0 0 empty
unfolding count_of
none-IsHeld = record {
  limit = refl;
  reservation = refl;
  shared_count = refl;
  reserved_count = refl;
}

handle_json-IsHeld_example :
    IsHeld memory two_slots "small" 2 0 0 0
      (handle_json memory minute glob reachable both_reach handler serve 0 (asks "big") empty).1
handle_json-IsHeld_example =
    handle_json-IsHeld memory minute glob reachable handler serve two_slots small 2 0 refl
      (λ x y t held. held) 0 0 0 (asks "big") big empty routed-big small_instead none-IsHeld
