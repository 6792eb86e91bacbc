-- ===== src/Registry/Lookups.antt =====
-- registry.go: what the indices hold, told by the list of the configured services.
use gatew_ai.Base.{
  ◌≡◌, refl, ap, ◌∙◌, Bool, false, not, ◌&&◌, ◌||◌, Option, some, String, str_eq, eq_iff, List, [],
  ◌∷◌, if◌then◌else◌, arith,
}
use gatew_ai.Server.{present}
use gatew_ai.Registry.Maps.{Map, lookup, put, lookup-put}
use gatew_ai.Registry.Configs.{ServiceConfig, Def, Pools, new_def, has_backend, among}
use gatew_ai.Registry.Patterns.{contains, has_suffix}
use gatew_ai.Registry.Indices.{
  Registry, or_empty, put₂, index_exact, index_path, index_paths, index_operations, index_type,
  register, register_all,
}

-- The last service of a list that a test accepts, after one that is there already.
unfoldable pub last_def :
    Pools → (ServiceConfig → Bool) → List ServiceConfig → Option Def → Option Def
last_def pools p [] found = found
last_def pools p (c ∷ cs) found =
    last_def pools p cs (if p c then some (new_def pools c) else found)

unfoldable pub some_service : (ServiceConfig → Bool) → List ServiceConfig → Bool
some_service p [] = false
some_service p (c ∷ cs) = p c || some_service p cs

abbrev pub of_type : String → ServiceConfig → Bool
of_type t c = str_eq c.service_type t

abbrev pub of_type_model : String → String → ServiceConfig → Bool
of_type_model t model c = str_eq c.service_type t && str_eq c.model model

unfoldable pub listed : String → Map (List String) → Bool
unfolding among
listed path [] = false
listed path ((name, paths) ∷ rest) = among path paths || listed path rest

-- A path that is no pattern and no prefix.
unfoldable pub is_exact : String → Bool
is_exact path = not (str_eq path "") && not (contains path "{model}") && not (has_suffix path "/*")

-- A service with a model and a backend, and the path among those of its operations.
unfoldable pub serves : String → ServiceConfig → Bool
unfolding listed is_exact
serves path c =
    not (str_eq c.model "") && has_backend c && is_exact path && listed path c.operations

abbrev pub serves_model : String → String → ServiceConfig → Bool
serves_model path model c = serves path c && str_eq c.model model

abbrev pub entry : String → String → Map (Map Def) → Option Def
entry k model m = lookup model (or_empty (lookup k m))

pub entry-put₂ :
    (k model : String) (d : Def) (m : Map (Map Def)) (j other : String)
    → entry j other (put₂ k model d m)
      ≡ (if str_eq k j && str_eq model other then some d else entry j other m)
unfolding put₂
entry-put₂ k model d m j other = ground (
  arith,
  eq_iff k j,
  lookup-put k (put model d (or_empty (lookup k m))) m j,
  lookup-put model d (or_empty (lookup k m)) other,
)

pub present-put₂ :
    (k model : String) (d : Def) (m : Map (Map Def)) (j : String)
    → present (lookup j (put₂ k model d m)) ≡ (str_eq k j || present (lookup j m))
unfolding put₂
present-put₂ k model d m j = ground (arith, lookup-put k (put model d (or_empty (lookup k m))) m j)

-- The indices by path leave the one by type alone.
paths-by_type :
    (cfg : ServiceConfig) (d : Def) (ps : List String) (r : Registry)
    → (index_paths cfg d ps r).by_type_model ≡ r.by_type_model
unfolding index_paths index_path index_exact
paths-by_type cfg d [] r = refl
paths-by_type cfg d (p ∷ ps) r = ground (arith, paths-by_type cfg d ps (index_path cfg d p r))

operations-by_type :
    (cfg : ServiceConfig) (d : Def) (ops : Map (List String)) (r : Registry)
    → (index_operations cfg d ops r).by_type_model ≡ r.by_type_model
unfolding index_operations
operations-by_type cfg d [] r = refl
operations-by_type cfg d ((name, ps) ∷ rest) r =
    operations-by_type cfg d rest (index_paths cfg d ps r) ∙ paths-by_type cfg d ps r

register-by_type :
    (pools : Pools) (cfg : ServiceConfig) (r : Registry)
    → (register pools cfg r).by_type_model
      ≡ put₂ cfg.service_type cfg.model (new_def pools cfg) r.by_type_model
unfolding register index_type
register-by_type pools cfg r = ground (
  arith,
  operations-by_type cfg (new_def pools cfg) cfg.operations (index_type cfg (new_def pools cfg) r),
)

registered-by_type :
    (pools : Pools) (cfg : ServiceConfig) (r : Registry) (t model : String)
    → entry t model (register pools cfg r).by_type_model ≡ (
        if of_type_model t model cfg
        then some (new_def pools cfg)
        else entry t model r.by_type_model)
registered-by_type pools cfg r t model =
    ap (entry t model) (register-by_type pools cfg r)
    ∙ entry-put₂ cfg.service_type cfg.model (new_def pools cfg) r.by_type_model t model

pub entry-by_type :
    (pools : Pools) (cfgs : List ServiceConfig) (r : Registry) (t model : String)
    → entry t model (register_all pools cfgs r).by_type_model
      ≡ last_def pools (of_type_model t model) cfgs (entry t model r.by_type_model)
unfolding register_all last_def
entry-by_type pools [] r t model = refl
entry-by_type pools (c ∷ cs) r t model =
    entry-by_type pools cs (register pools c r) t model
    ∙ ap (last_def pools (of_type_model t model) cs) (registered-by_type pools c r t model)

pub present-by_type :
    (pools : Pools) (cfgs : List ServiceConfig) (r : Registry) (t : String)
    → present (lookup t (register_all pools cfgs r).by_type_model)
      ≡ (present (lookup t r.by_type_model) || some_service (of_type t) cfgs)
unfolding register_all some_service
present-by_type pools [] r t = ground arith
present-by_type pools (c ∷ cs) r t = ground (
  arith,
  present-by_type pools cs (register pools c r) t,
  register-by_type pools c r,
  present-put₂ c.service_type c.model (new_def pools c) r.by_type_model t,
)
