-- ===== src/Registry/Refinement.antt =====
-- registry.go: routing by the indices against routing by the list of the configured services.
use gatew_ai.Base.{◌≡◌, ◌≢◌, true, none, some, String, ==-ne, List, if◌then◌else◌, arith}
use gatew_ai.Registry.Maps.{lookup}
use gatew_ai.Registry.Configs.{ServiceConfig, Pools}
use gatew_ai.Registry.Indices.{no_services, new_registry}
use gatew_ai.Registry.Routes.{
  Routed, routed, refused, unknown_type, model_not_found, no_service, route_async, route_sync,
  route_models,
}
use gatew_ai.Registry.Lookups.{
  last_def, some_service, of_type, of_type_model, serves, serves_model, entry-by_type,
  present-by_type,
}
use gatew_ai.Registry.Exact.{entry-by_sync, present-by_sync}

-- The service of the type that was configured last under the name.
unfoldable pub async_service : Pools → List ServiceConfig → String → String → Routed
async_service pools cfgs t model = elim (last_def pools (of_type_model t model) cfgs none) [
  | some d ↦ routed d
  | none ↦ refused (if some_service (of_type t) cfgs then model_not_found else unknown_type)
]

-- The service on the path that was configured last under the name.
unfoldable pub sync_service : Pools → List ServiceConfig → String → String → Routed
sync_service pools cfgs path model = elim (last_def pools (serves_model path model) cfgs none) [
  | some d ↦ routed d
  | none ↦ refused no_service
]

-- An asynchronous job that names a model gets the definition of the service that is configured last
-- with its type and that model; without one it is refused, with the reason.
pub route_async-async_service :
    (pools : Pools) (cfgs : List ServiceConfig) (t model : String)
    → model ≢ ""
    → route_async (new_registry pools cfgs) t model ≡ async_service pools cfgs t model
unfolding route_async async_service new_registry lookup
route_async-async_service pools cfgs t model h = ground (
  arith,
  ==-ne model "" h,
  entry-by_type pools cfgs no_services t model,
  present-by_type pools cfgs no_services t,
)

-- On a path that some service with a model and a backend is configured for exactly, a synchronous
-- request that names a model gets the definition of the service configured last with both; without one it
-- is refused, whatever patterns and prefixes would match.
pub route_sync-sync_service :
    (pools : Pools) (cfgs : List ServiceConfig) (path model : String)
    → model ≢ ""
    → some_service (serves path) cfgs ≡ true
    → route_sync (new_registry pools cfgs) path model ≡ sync_service pools cfgs path model
unfolding route_sync sync_service new_registry route_models lookup
route_sync-sync_service pools cfgs path model h k = ground (
  arith,
  ==-ne model "" h,
  k,
  entry-by_sync pools cfgs no_services path model,
  present-by_sync pools cfgs no_services path,
)
