-- ===== src/Registry/Unambiguous.antt =====
-- registry.go: a path that names its service, against the full routing.
use gatew_ai.Base.{◌≡◌, Option, some, String, List, [], ◌∷◌, arith, Option-cases, inl, inr}
use gatew_ai.Registry.Maps.{Map, lookup, only, lookup-only}
use gatew_ai.Registry.Configs.{Def}
use gatew_ai.Registry.Indices.{PathPattern, WildcardRoute, Registry}
use gatew_ai.Registry.Routes.{
  RouteError, no_service, no_wildcard_service, routed, route_models, unnamed, route_wildcards,
  route_patterns, route_sync, resolve_wildcards, resolve_patterns, resolve_sync_by_path,
}

models-only :
    (models : Map Def) (fallback : Option Def) (model : String) (e : RouteError) (d found : Def)
    → only models ≡ some d
    → route_models models fallback model e ≡ routed found
    → found ≡ d
unfolding route_models unnamed
models-only models fallback model e d found h g = elim (Option-cases (lookup model models)) [
  | inl q ↦ ground (arith, q, h, g)
  | inr (w, q) ↦ ground (arith, q, h, g, lookup-only model models d w h q)
]

wildcards-only :
    (ws : List WildcardRoute) (path model : String) (d found : Def)
    → resolve_wildcards ws path ≡ some d
    → route_wildcards ws path model ≡ routed found
    → found ≡ d
unfolding resolve_wildcards route_wildcards
wildcards-only [] path model d found h g = ground (arith, h)
wildcards-only (w ∷ ws) path model d found h g = ground (
  arith,
  h,
  g,
  models-only w.by_model w.deflt model no_wildcard_service d found,
  wildcards-only ws path model d found,
)

patterns-only :
    (ps : List PathPattern) (ws : List WildcardRoute) (path model : String) (d found : Def)
    → resolve_patterns ps ws path ≡ some d
    → route_patterns ps ws path model ≡ routed found
    → found ≡ d
unfolding resolve_patterns route_patterns
patterns-only [] ws path model d found h g = wildcards-only ws path model d found h g
patterns-only (p ∷ ps) ws path model d found h g =
    ground (arith, h, g, patterns-only ps ws path model d found)

-- Where a path alone resolves to a service, as for an upload that is streamed before its fields are read,
-- no model in the body routes the request to another one.
pub route_sync-resolve_sync_by_path :
    (r : Registry) (path model : String) (d found : Def)
    → resolve_sync_by_path r path ≡ some d
    → route_sync r path model ≡ routed found
    → found ≡ d
unfolding resolve_sync_by_path route_sync
route_sync-resolve_sync_by_path r path model d found h g =
    elim (Option-cases (lookup path r.by_sync)) [
      | inl q ↦
          patterns-only r.by_pattern r.by_wildcard path model d found (ground (arith, q, h))
            (ground (arith, q, g))
      | inr (models, q) ↦
          models-only models (lookup path r.default_by_path) model no_service d found
            (ground (arith, q, h)) (ground (arith, q, g))
    ]
