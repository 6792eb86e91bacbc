-- ===== src/Registry/Naming.antt =====
-- registry.go: a request is not routed to a model that it does not name.
use gatew_ai.Base.{
  ◌≡◌, ◌≢◌, ◌⊎◌, refl, ap, subst, Bool, Option, none, some, String, str_eq, eq_iff, ==-ne, List, [],
  ◌∷◌, arith, All, Option-cases, Bool-cases, inl, inr, not, ◌&&◌,
}
use gatew_ai.Registry.Maps.{Map, lookup, put}
use gatew_ai.Registry.Configs.{ServiceConfig, Def, Pools, new_def, has_backend}
use gatew_ai.Registry.Patterns.{match_path}
use gatew_ai.Registry.Indices.{
  PathPattern, WildcardRoute, Registry, no_services, or_empty, put₂, index_pattern, new_wildcard,
  index_wildcard, index_exact, index_path, index_paths, index_operations, index_type, register,
  register_all, new_registry,
}
use gatew_ai.Registry.Routes.{
  RouteError, no_service, no_wildcard_service, routed, route_models, route_wildcards,
  route_patterns, route_sync,
}

-- Every definition stands under the name of its model.
abbrev pub AllNamed : Map Def → Type 0
AllNamed m = All (λ e. e.1.model ≡ e.0) m

abbrev AllNamed₂ : Map (Map Def) → Type 0
AllNamed₂ m = All (λ e. AllNamed e.1) m

pub record IsNamed (r : Registry) : Type 0 where
  pub sync : AllNamed₂ r.by_sync
  pub patterns : All (λ p. AllNamed p.defs_by_model) r.by_pattern
  pub wildcards : All (λ w. AllNamed w.by_model) r.by_wildcard

put-AllNamed : (d : Def) (m : Map Def) → AllNamed m → AllNamed (put d.model d m)
unfolding put
put-AllNamed d [] h = (refl, tt)
put-AllNamed d ((k, e) ∷ rest) h = ground (arith, h, eq_iff k d.model, put-AllNamed d rest h.1)

lookup-AllNamed :
    (k : String) (m : Map Def) (d : Def) → AllNamed m → lookup k m ≡ some d → d.model ≡ k
unfolding lookup
lookup-AllNamed k [] d h e = ground (arith, e)
lookup-AllNamed k ((j, f) ∷ rest) d h e =
    ground (arith, h, e, eq_iff j k, lookup-AllNamed k rest d h.1)

lookup-AllNamed₂ : (k : String) (m : Map (Map Def)) → AllNamed₂ m → AllNamed (or_empty (lookup k m))
unfolding lookup
lookup-AllNamed₂ k [] h = tt
lookup-AllNamed₂ k ((j, f) ∷ rest) h = ground (arith, h, lookup-AllNamed₂ k rest h.1)

put-AllNamed₂ :
    (k : String) (f : Map Def) (m : Map (Map Def))
    → AllNamed f
    → AllNamed₂ m
    → AllNamed₂ (put k f m)
unfolding put
put-AllNamed₂ k f [] g h = (g, tt)
put-AllNamed₂ k f ((j, e) ∷ rest) g h = ground (arith, g, h, put-AllNamed₂ k f rest g h.1)

pattern-AllNamed :
    (p : String) (d : Def) (ps : List PathPattern)
    → All (λ p. AllNamed p.defs_by_model) ps
    → All (λ p. AllNamed p.defs_by_model) (index_pattern p d.model d ps)
unfolding index_pattern
pattern-AllNamed p d [] h = ((refl, tt), tt)
pattern-AllNamed p d (q ∷ qs) h =
    ground (arith, h, put-AllNamed d q.defs_by_model h.0, pattern-AllNamed p d qs h.1)

wildcard-AllNamed :
    (p : String) (d : Def) (is_default : Bool) (ws : List WildcardRoute)
    → All (λ w. AllNamed w.by_model) ws
    → All (λ w. AllNamed w.by_model) (index_wildcard p d.model d is_default ws)
unfolding index_wildcard new_wildcard
wildcard-AllNamed p d is_default [] h = ((refl, tt), tt)
wildcard-AllNamed p d is_default (w ∷ ws) h =
    ground (arith, h, put-AllNamed d w.by_model h.0, wildcard-AllNamed p d is_default ws h.1)

path-IsNamed :
    (pools : Pools) (cfg : ServiceConfig) (p : String) (r : Registry)
    → IsNamed r
    → IsNamed (index_path cfg (new_def pools cfg) p r)
unfolding index_path index_exact put₂ new_def
path-IsNamed pools cfg p r h =
    let d = new_def pools cfg in
    let models = or_empty (lookup p r.by_sync) in
    ground (
      arith,
      h.sync,
      h.patterns,
      h.wildcards,
      pattern-AllNamed p d r.by_pattern h.patterns,
      wildcard-AllNamed p d cfg.is_default r.by_wildcard h.wildcards,
      put-AllNamed₂ p (put d.model d models) r.by_sync
          (put-AllNamed d models (lookup-AllNamed₂ p r.by_sync h.sync)) h.sync,
    )

paths-IsNamed :
    (pools : Pools) (cfg : ServiceConfig) (ps : List String) (r : Registry)
    → IsNamed r
    → IsNamed (index_paths cfg (new_def pools cfg) ps r)
unfolding index_paths
paths-IsNamed pools cfg [] r h = h
paths-IsNamed pools cfg (p ∷ ps) r h =
    paths-IsNamed pools cfg ps (index_path cfg (new_def pools cfg) p r)
      (path-IsNamed pools cfg p r h)

operations-IsNamed :
    (pools : Pools) (cfg : ServiceConfig) (ops : Map (List String)) (r : Registry)
    → IsNamed r
    → IsNamed (index_operations cfg (new_def pools cfg) ops r)
unfolding index_operations
operations-IsNamed pools cfg [] r h = h
operations-IsNamed pools cfg ((name, ps) ∷ rest) r h =
    operations-IsNamed pools cfg rest (index_paths cfg (new_def pools cfg) ps r)
      (paths-IsNamed pools cfg ps r h)

register-IsNamed :
    (pools : Pools) (cfg : ServiceConfig) (r : Registry)
    → IsNamed r
    → IsNamed (register pools cfg r)
unfolding register index_type
register-IsNamed pools cfg r h =
    let d = new_def pools cfg in
    let typed : IsNamed (index_type cfg d r) = record {
      sync = h.sync;
      patterns = h.patterns;
      wildcards = h.wildcards;
    } in
    elim (Bool-cases (not (str_eq cfg.model "") && has_backend cfg)) [
      | inl e ↦ rw e (operations-IsNamed pools cfg cfg.operations (index_type cfg d r) typed)
      | inr e ↦ rw e typed
    ]

pub register_all-IsNamed :
    (pools : Pools) (cfgs : List ServiceConfig) (r : Registry)
    → IsNamed r
    → IsNamed (register_all pools cfgs r)
unfolding register_all
register_all-IsNamed pools [] r h = h
register_all-IsNamed pools (c ∷ cs) r h =
    register_all-IsNamed pools cs (register pools c r) (register-IsNamed pools c r h)

-- The model that the first matching pattern finds in the path.
unfoldable pub url_model : List PathPattern → String → Option String
url_model [] path = none
url_model (p ∷ ps) path =
    let later = url_model ps path in
    elim (match_path p.segments path) [ none ↦ later | some model ↦ some model ]

Named : (path model : String) → List PathPattern → Def → Type 0
Named path model ps d = (d.model ≡ model) ⊎ (url_model ps path ≡ some d.model)

models-Named :
    (models : Map Def) (fallback : Option Def) (model : String) (e : RouteError) (d : Def)
    → AllNamed models
    → model ≢ ""
    → route_models models fallback model e ≡ routed d
    → d.model ≡ model
unfolding route_models
models-Named models fallback model e d h n g = elim (Option-cases (lookup model models)) [
  | inl q ↦ ground (arith, q, g, ==-ne model "" n)
  | inr (f, q) ↦ ground (arith, q, g, lookup-AllNamed model models f h q)
]

wildcards-Named :
    (ws : List WildcardRoute) (path model : String) (d : Def)
    → All (λ w. AllNamed w.by_model) ws
    → model ≢ ""
    → route_wildcards ws path model ≡ routed d
    → d.model ≡ model
unfolding route_wildcards
wildcards-Named [] path model d h n g = ground (arith, g)
wildcards-Named (w ∷ ws) path model d h n g = ground (
  arith,
  g,
  models-Named w.by_model w.deflt model no_wildcard_service d h.0 n,
  wildcards-Named ws path model d h.1 n,
)

patterns-Named :
    (ps : List PathPattern) (ws : List WildcardRoute) (path model : String) (d : Def)
    → All (λ p. AllNamed p.defs_by_model) ps
    → All (λ w. AllNamed w.by_model) ws
    → model ≢ ""
    → route_patterns ps ws path model ≡ routed d
    → (d.model ≡ model) ⊎ (url_model ps path ≡ some d.model)
unfolding route_patterns url_model
patterns-Named [] ws path model d h k n g = inl (wildcards-Named ws path model d k n g)
patterns-Named (p ∷ ps) ws path model d h k n g = elim (Option-cases (match_path p.segments path)) [
  | inl q ↦ elim (patterns-Named ps ws path model d h.1 k n (ground (arith, q, g))) [
    | inl e ↦ inl e
    | inr e ↦ inr (ground (arith, q, e))
  ]
  | inr (m, q) ↦ elim (Option-cases (lookup m p.defs_by_model)) [
    | inl e ↦ absurd (ground (arith, q, e, g))
    | inr (f, e) ↦ inr (ground (arith, q, e, g, lookup-AllNamed m p.defs_by_model f h.0 e))
  ]
]

-- A request that names a model is routed to a service of that model, or to one of the model that the
-- path itself names in the place of a pattern; never to another, and to no default.
pub model-route_sync :
    (pools : Pools) (cfgs : List ServiceConfig) (path model : String) (d : Def)
    → model ≢ ""
    → route_sync (new_registry pools cfgs) path model ≡ routed d
    → (d.model ≡ model) ⊎ (url_model (new_registry pools cfgs).by_pattern path ≡ some d.model)
unfolding route_sync new_registry
model-route_sync pools cfgs path model d n g =
    let r = new_registry pools cfgs in
    let h =
      register_all-IsNamed pools cfgs no_services
        (record { sync = tt; patterns = tt; wildcards = tt }) in
    elim (Option-cases (lookup path r.by_sync)) [
      | inl q ↦
          patterns-Named r.by_pattern r.by_wildcard path model d h.patterns h.wildcards n
            (ground (arith, q, g))
      | inr (models, q) ↦ inl (
          models-Named models (lookup path r.default_by_path) model no_service d
            (subst AllNamed (ap or_empty q) (lookup-AllNamed₂ path r.by_sync h.sync)) n
            (ground (arith, q, g)))
    ]
