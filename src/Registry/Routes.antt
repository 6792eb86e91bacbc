-- ===== src/Registry/Routes.antt =====
-- registry.go: how a request finds its service.
use text.Mathlib.Text.{starts_with}
use gatew_ai.Base.{ℕ, not, Option, none, some, String, str_eq, ltb, List, [], ◌∷◌, if◌then◌else◌}
use gatew_ai.Registry.Maps.{Map, lookup, only}
use gatew_ai.Registry.Configs.{Def}
use gatew_ai.Registry.Patterns.{match_path}
use gatew_ai.Registry.Indices.{PathPattern, WildcardRoute, Registry}

pub data RouteError : Type 0 where
  unknown_type several_models model_not_found : RouteError
  no_service no_pattern_model no_wildcard_service no_path : RouteError

pub data Routed : Type 0 where
  routed : Def → Routed
  refused : RouteError → Routed

abbrev pub or_else : Option Def → Option Def → RouteError → Routed
or_else (some d) fallback e = routed d
or_else none (some d) e = routed d
or_else none none e = refused e

-- A request that names no model: the only one, else the default one.
unfoldable pub unnamed : Map Def → Option Def → RouteError → Routed
unnamed models fallback e = or_else (only models) fallback e

abbrev pub found_or : Option Def → RouteError → Routed
found_or none e = refused e
found_or (some d) e = routed d

unfoldable pub route_async : Registry → String → String → Routed
unfolding unnamed
route_async r service_type model = elim (lookup service_type r.by_type_model) [
  | none ↦ refused unknown_type
  | some models ↦
      if str_eq model ""
      then unnamed models (lookup service_type r.default_by_type) several_models
      else found_or (lookup model models) model_not_found
]

-- By the body's model; without one by what is the only or default service.
unfoldable pub route_models : Map Def → Option Def → String → RouteError → Routed
unfolding unnamed
route_models models fallback model e = elim (lookup model models) [
  | some d ↦ routed d
  | none ↦ if str_eq model "" then unnamed models fallback e else refused e
]

unfoldable pub route_wildcards : List WildcardRoute → String → String → Routed
unfolding route_models
route_wildcards [] path model = refused no_path
route_wildcards (w ∷ ws) path model =
    let later = route_wildcards ws path model in
    if not (starts_with path w.prefix)
    then later
    else route_models w.by_model w.deflt model no_wildcard_service

unfoldable pub route_patterns : List PathPattern → List WildcardRoute → String → String → Routed
unfolding route_wildcards
route_patterns [] ws path model = route_wildcards ws path model
route_patterns (p ∷ ps) ws path model =
    let later = route_patterns ps ws path model in
    elim (match_path p.segments path) [
      | none ↦ later
      | some extracted ↦ found_or (lookup extracted p.defs_by_model) no_pattern_model
    ]

unfoldable pub route_sync : Registry → String → String → Routed
unfolding route_models route_patterns
route_sync r path model = elim (lookup path r.by_sync) [
  | some models ↦ route_models models (lookup path r.default_by_path) model no_service
  | none ↦ route_patterns r.by_pattern r.by_wildcard path model
]

unfoldable pub resolve_wildcards : List WildcardRoute → String → Option Def
resolve_wildcards [] path = none
resolve_wildcards (w ∷ ws) path =
    let later = resolve_wildcards ws path in
    if starts_with path w.prefix then only w.by_model else later

unfoldable pub resolve_patterns : List PathPattern → List WildcardRoute → String → Option Def
unfolding resolve_wildcards
resolve_patterns [] ws path = resolve_wildcards ws path
resolve_patterns (p ∷ ps) ws path =
    let later = resolve_patterns ps ws path in
    elim (match_path p.segments path) [
      | none ↦ later
      | some extracted ↦ lookup extracted p.defs_by_model
    ]

unfoldable pub resolve_sync_by_path : Registry → String → Option Def
unfolding resolve_patterns
resolve_sync_by_path r path = elim (lookup path r.by_sync) [
  | some models ↦ only models
  | none ↦ resolve_patterns r.by_pattern r.by_wildcard path
]

unfoldable pub largest : ℕ → Map Def → ℕ
largest max [] = max
largest max ((k, d) ∷ rest) =
    largest (if ltb max d.max_file_size_mb then d.max_file_size_mb else max) rest

unfoldable pub max_file_size_for_type : Registry → String → Option ℕ
unfolding largest
max_file_size_for_type r service_type = elim (lookup service_type r.by_type_model) [
  | none ↦ none
  | some models ↦ some (largest 0 models)
]
