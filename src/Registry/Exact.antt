-- ===== src/Registry/Exact.antt =====
-- registry.go: what the index by exact path holds, told by the list of the configured services.
use gatew_ai.Base.{
  ◌≡◌, refl, ap, ◌∙◌, ◌&&◌, ◌||◌, some, String, str_eq, eq_iff, List, [], ◌∷◌, if◌then◌else◌, arith,
}
use gatew_ai.Server.{present}
use gatew_ai.Registry.Maps.{Map, lookup}
use gatew_ai.Registry.Configs.{ServiceConfig, Def, Pools, new_def, among}
use gatew_ai.Registry.Indices.{
  Registry, index_exact, index_path, index_paths, index_operations, index_type, register,
  register_all,
}
use gatew_ai.Registry.Lookups.{
  last_def, some_service, listed, is_exact, serves, serves_model, entry, entry-put₂, present-put₂,
}

path-by_sync :
    (cfg : ServiceConfig) (d : Def) (p : String) (r : Registry) (path model : String)
    → entry path model (index_path cfg d p r).by_sync ≡ (
        if is_exact path && str_eq p path && str_eq cfg.model model
        then some d
        else entry path model r.by_sync)
unfolding index_path index_exact is_exact
path-by_sync cfg d p r path model =
    ground (arith, eq_iff p path, entry-put₂ p cfg.model d r.by_sync path model)

paths-by_sync :
    (cfg : ServiceConfig) (d : Def) (ps : List String) (r : Registry) (path model : String)
    → entry path model (index_paths cfg d ps r).by_sync ≡ (
        if is_exact path && among path ps && str_eq cfg.model model
        then some d
        else entry path model r.by_sync)
unfolding index_paths among
paths-by_sync cfg d [] r path model = ground arith
paths-by_sync cfg d (p ∷ ps) r path model = ground (
  arith,
  paths-by_sync cfg d ps (index_path cfg d p r) path model,
  path-by_sync cfg d p r path model,
)

operations-by_sync :
    (cfg : ServiceConfig) (d : Def) (ops : Map (List String)) (r : Registry) (path model : String)
    → entry path model (index_operations cfg d ops r).by_sync ≡ (
        if is_exact path && listed path ops && str_eq cfg.model model
        then some d
        else entry path model r.by_sync)
unfolding index_operations listed
operations-by_sync cfg d [] r path model = ground arith
operations-by_sync cfg d ((name, ps) ∷ rest) r path model = ground (
  arith,
  operations-by_sync cfg d rest (index_paths cfg d ps r) path model,
  paths-by_sync cfg d ps r path model,
)

registered-by_sync :
    (pools : Pools) (cfg : ServiceConfig) (r : Registry) (path model : String)
    → entry path model (register pools cfg r).by_sync ≡ (
        if serves_model path model cfg
        then some (new_def pools cfg)
        else entry path model r.by_sync)
unfolding register index_type serves
registered-by_sync pools cfg r path model =
    let d = new_def pools cfg in
    ground (arith, operations-by_sync cfg d cfg.operations (index_type cfg d r) path model)

pub entry-by_sync :
    (pools : Pools) (cfgs : List ServiceConfig) (r : Registry) (path model : String)
    → entry path model (register_all pools cfgs r).by_sync
      ≡ last_def pools (serves_model path model) cfgs (entry path model r.by_sync)
unfolding register_all last_def
entry-by_sync pools [] r path model = refl
entry-by_sync pools (c ∷ cs) r path model =
    entry-by_sync pools cs (register pools c r) path model
    ∙ ap (last_def pools (serves_model path model) cs) (registered-by_sync pools c r path model)

path-present :
    (cfg : ServiceConfig) (d : Def) (p : String) (r : Registry) (path : String)
    → present (lookup path (index_path cfg d p r).by_sync)
      ≡ (is_exact path && str_eq p path || present (lookup path r.by_sync))
unfolding index_path index_exact is_exact
path-present cfg d p r path =
    ground (arith, eq_iff p path, present-put₂ p cfg.model d r.by_sync path)

paths-present :
    (cfg : ServiceConfig) (d : Def) (ps : List String) (r : Registry) (path : String)
    → present (lookup path (index_paths cfg d ps r).by_sync)
      ≡ (is_exact path && among path ps || present (lookup path r.by_sync))
unfolding index_paths among
paths-present cfg d [] r path = ground arith
paths-present cfg d (p ∷ ps) r path =
    ground (arith, paths-present cfg d ps (index_path cfg d p r) path, path-present cfg d p r path)

operations-present :
    (cfg : ServiceConfig) (d : Def) (ops : Map (List String)) (r : Registry) (path : String)
    → present (lookup path (index_operations cfg d ops r).by_sync)
      ≡ (is_exact path && listed path ops || present (lookup path r.by_sync))
unfolding index_operations listed
operations-present cfg d [] r path = ground arith
operations-present cfg d ((name, ps) ∷ rest) r path = ground (
  arith,
  operations-present cfg d rest (index_paths cfg d ps r) path,
  paths-present cfg d ps r path,
)

registered-present :
    (pools : Pools) (cfg : ServiceConfig) (r : Registry) (path : String)
    → present (lookup path (register pools cfg r).by_sync)
      ≡ (serves path cfg || present (lookup path r.by_sync))
unfolding register index_type serves
registered-present pools cfg r path =
    let d = new_def pools cfg in
    ground (arith, operations-present cfg d cfg.operations (index_type cfg d r) path)

pub present-by_sync :
    (pools : Pools) (cfgs : List ServiceConfig) (r : Registry) (path : String)
    → present (lookup path (register_all pools cfgs r).by_sync)
      ≡ (some_service (serves path) cfgs || present (lookup path r.by_sync))
unfolding register_all some_service
present-by_sync pools [] r path = ground arith
present-by_sync pools (c ∷ cs) r path =
    ground
      (arith, present-by_sync pools cs (register pools c r) path, registered-present pools c r path)
