-- ===== src/Registry/Indices.antt =====
-- registry.go: the indices of the registry, as NewRegistry builds them from the configuration.
use gatew_ai.Base.{
  Bool, not, ◌&&◌, Option, none, some, String, str_eq, List, [], ◌∷◌, if◌then◌else◌,
}
use gatew_ai.Registry.Maps.{Map, lookup, put}
use gatew_ai.Registry.Configs.{ServiceConfig, Def, Pools, new_def, has_backend}
use gatew_ai.Registry.Patterns.{contains, has_suffix, trim_suffix, split}

pub record PathPattern : Type 0 where
  pub pattern : String
  pub segments : List String
  pub defs_by_model : Map Def

pub record WildcardRoute : Type 0 where
  pub pattern : String
  pub prefix : String
  pub by_model : Map Def
  pub deflt : Option Def

pub record Registry : Type 0 where
  pub by_type_model : Map (Map Def)
  pub default_by_type : Map Def
  pub by_sync : Map (Map Def)
  pub default_by_path : Map Def
  pub by_pattern : List PathPattern
  pub by_wildcard : List WildcardRoute

abbrev pub no_services : Registry
no_services = record {
  by_type_model = [];
  default_by_type = [];
  by_sync = [];
  default_by_path = [];
  by_pattern = [];
  by_wildcard = [];
}

abbrev pub or_empty : Option (Map Def) → Map Def
or_empty none = []
or_empty (some m) = m

-- An entry of a map of maps.
unfoldable pub put₂ : String → String → Def → Map (Map Def) → Map (Map Def)
put₂ k model def m = put k (put model def (or_empty (lookup k m))) m

unfoldable pub index_pattern : String → String → Def → List PathPattern → List PathPattern
unfolding split
index_pattern pattern model def [] =
    record { pattern = pattern; segments = split pattern "/"; defs_by_model = (model, def) ∷ [] }
    ∷ []
index_pattern pattern model def (p ∷ ps) =
    let later = index_pattern pattern model def ps in
    if str_eq p.pattern pattern
    then record p { defs_by_model = put model def p.defs_by_model } ∷ ps
    else p ∷ later

unfoldable pub new_wildcard : String → String → Def → Bool → WildcardRoute
new_wildcard pattern model def is_default = record {
  pattern = pattern;
  prefix = trim_suffix pattern "*";
  by_model = (model, def) ∷ [];
  deflt = if is_default then some def else none;
}

unfoldable pub index_wildcard :
    String → String → Def → Bool → List WildcardRoute → List WildcardRoute
unfolding new_wildcard
index_wildcard pattern model def is_default [] = new_wildcard pattern model def is_default ∷ []
index_wildcard pattern model def is_default (w ∷ ws) =
    let later = index_wildcard pattern model def is_default ws in
    if str_eq w.pattern pattern
    then record w {
      by_model = put model def w.by_model;
      deflt = if is_default then some def else w.deflt;
    }
      ∷ ws
    else w ∷ later

unfoldable pub index_exact : String → String → Def → Bool → Registry → Registry
unfolding put₂
index_exact path model def is_default r = record r {
  by_sync = put₂ path model def r.by_sync;
  default_by_path = if is_default then put path def r.default_by_path else r.default_by_path;
}

-- One configured path of a service.
unfoldable pub index_path : ServiceConfig → Def → String → Registry → Registry
unfolding index_pattern index_wildcard index_exact
index_path cfg def path r =
    if str_eq path ""
    then r
    else if contains path "{model}"
    then record r { by_pattern = index_pattern path cfg.model def r.by_pattern }
    else if has_suffix path "/*"
    then record r { by_wildcard = index_wildcard path cfg.model def cfg.is_default r.by_wildcard }
    else index_exact path cfg.model def cfg.is_default r

unfoldable pub index_paths : ServiceConfig → Def → List String → Registry → Registry
unfolding index_path
index_paths cfg def [] r = r
index_paths cfg def (p ∷ ps) r = index_paths cfg def ps (index_path cfg def p r)

unfoldable pub index_operations : ServiceConfig → Def → Map (List String) → Registry → Registry
unfolding index_paths
index_operations cfg def [] r = r
index_operations cfg def ((name, paths) ∷ rest) r =
    index_operations cfg def rest (index_paths cfg def paths r)

unfoldable pub index_type : ServiceConfig → Def → Registry → Registry
unfolding put₂
index_type cfg def r = record r {
  by_type_model = put₂ cfg.service_type cfg.model def r.by_type_model;
  default_by_type =
      if cfg.is_default then put cfg.service_type def r.default_by_type else r.default_by_type;
}

unfoldable pub register : Pools → ServiceConfig → Registry → Registry
unfolding index_type index_operations
register pools cfg r =
    let def = new_def pools cfg in
    let typed = index_type cfg def r in
    if not (str_eq cfg.model "") && has_backend cfg
    then index_operations cfg def cfg.operations typed
    else typed

unfoldable pub register_all : Pools → List ServiceConfig → Registry → Registry
unfolding register
register_all pools [] r = r
register_all pools (cfg ∷ cfgs) r = register_all pools cfgs (register pools cfg r)

unfoldable pub new_registry : Pools → List ServiceConfig → Registry
unfolding register_all
new_registry pools cfgs = register_all pools cfgs no_services
