-- ===== src/Registry/Examples.antt =====
-- registry.go: the routing of two services that share a path.
use gatew_ai.Base.{
  ◌≡◌, ◌≢◌, ◌⊎◌, refl, true, false, none, some, String, List, [], ◌∷◌, arith, eq_iff,
}
use gatew_ai.Base.Int.{pos}
use gatew_ai.Backends.Examples.{backend}
use gatew_ai.Registry.Configs.{ServiceConfig, Pools, new_def, has_backend, among}
use gatew_ai.Registry.Maps.{lookup, put}
use gatew_ai.Registry.Patterns.{
  contains, has_suffix, split, split_from, match_model_segment, match_path, match_segments, around,
}
use gatew_ai.Registry.Indices.{
  Registry, new_registry, register_all, register, index_type, index_operations, index_paths,
  index_path, index_exact, index_pattern, put₂,
}
use gatew_ai.Registry.Routes.{
  routed, route_sync, route_models, route_patterns, resolve_sync_by_path, resolve_patterns,
}
use gatew_ai.Registry.Lookups.{some_service, serves, listed, is_exact}
use gatew_ai.Registry.Refinement.{sync_service, route_sync-sync_service}
use gatew_ai.Registry.Naming.{url_model, model-route_sync}

abbrev service : String → List (String × List String) → ServiceConfig
service model operations = record {
  service_type = "audio";
  model = model;
  is_default = false;
  inference_url = "";
  backends = backend "a" 1 ∷ [];
  backend_pool = "";
  operations = operations;
  max_file_size_mb = 25;
  provider = "";
  backend_model = "";
  budget_group = "";
  fallback_model = "";
  retries = pos 1;
  visibility = record { user_types = []; groups = [] };
}

abbrev pools : Pools
pools name = none

abbrev tiny : ServiceConfig
tiny = service "tiny" (("transcribe", "/v1/audio" ∷ []) ∷ ("infer", "/v2/{model}/infer" ∷ []) ∷ [])

abbrev large : ServiceConfig
large = service "large" (("transcribe", "/v1/audio" ∷ []) ∷ [])

abbrev services : List ServiceConfig
services = tiny ∷ large ∷ []

abbrev registry : Registry
registry = new_registry pools services

by_body : route_sync registry "/v1/audio" "large" ≡ routed (new_def pools large)
unfolding new_registry register_all register index_type index_operations index_paths index_path
    index_exact index_pattern put₂ lookup put contains has_suffix route_sync route_models
    has_backend
by_body = refl

by_path : resolve_sync_by_path registry "/v2/tiny/infer" ≡ some (new_def pools tiny)
unfolding new_registry register_all register index_type index_operations index_paths index_path
    index_exact index_pattern put₂ lookup put contains has_suffix has_backend resolve_sync_by_path
    resolve_patterns match_path match_segments match_model_segment around split split_from
by_path = refl

by_url : route_sync registry "/v2/tiny/infer" "large" ≡ routed (new_def pools tiny)
unfolding new_registry register_all register index_type index_operations index_paths index_path
    index_exact index_pattern put₂ lookup put contains has_suffix has_backend route_sync
    route_patterns match_path match_segments match_model_segment around split split_from
by_url = refl

is_served : some_service (serves "/v1/audio") services ≡ true
unfolding some_service serves listed is_exact among contains has_suffix has_backend
is_served = refl

large-named : ◌≢◌ {A = String} "large" ""
large-named e = ground (arith, e, eq_iff "large" "")

route_sync-sync_service_example :
    route_sync registry "/v1/audio" "large" ≡ sync_service pools services "/v1/audio" "large"
route_sync-sync_service_example =
    route_sync-sync_service pools services "/v1/audio" "large" large-named is_served

model-route_sync_example :
    ((new_def pools tiny).model ≡ "large")
    ⊎ (url_model registry.by_pattern "/v2/tiny/infer" ≡ some (new_def pools tiny).model)
model-route_sync_example =
    model-route_sync pools services "/v2/tiny/infer" "large" (new_def pools tiny) large-named by_url
