-- ===== src/Registry/Configs.antt =====
-- registry.go: what a service is configured as, and the definition that is made of it.
use gatew_ai.Base.{
  ℕ, Bool, true, false, not, ◌&&◌, ◌||◌, Option, none, some, String, str_eq, ltb, List, [], ◌∷◌,
  if◌then◌else◌, map,
}
use gatew_ai.Base.Int.{ℤ}
use gatew_ai.Backends.{Backend}
use gatew_ai.Registry.Maps.{Map, lookup, put, only}

pub record VisibilityConfig : Type 0 where
  pub user_types : List String
  pub groups : List String

-- The fields of internal/config/config.go that routing reads. The members of a pool have the fields of
-- a backend.
pub record ServiceConfig : Type 0 where
  pub service_type : String
  pub model : String
  pub is_default : Bool
  pub inference_url : String
  pub backends : List Backend
  pub backend_pool : String
  pub operations : Map (List String)
  pub max_file_size_mb : ℕ
  pub provider : String
  pub backend_model : String
  pub budget_group : String
  pub fallback_model : String
  pub retries : ℤ
  pub visibility : VisibilityConfig

pub record BackendPoolConfig : Type 0 where
  pub members : List Backend
  pub headers : Map String

pub record Def : Type 0 where
  pub service_type : String
  pub model : String
  pub max_file_size_mb : ℕ
  pub inference_url : String
  pub backends : List Backend
  pub pool_name : String
  pub operations : Map (List String)
  pub provider : String
  pub backend_model : String
  pub budget_group : String
  pub fallback_model : String
  pub retries : ℤ
  pub visibility : VisibilityConfig

is_empty {ℓ} : {A : Type ℓ} → List A → Bool
is_empty [] = true
is_empty (x ∷ xs) = false

unfoldable pub normalize_backends : List Backend → String → List Backend
normalize_backends [] legacy_url =
    if not (str_eq legacy_url "")
    then record { url = legacy_url; weight = 1; headers = []; model = "" } ∷ []
    else []
normalize_backends (b ∷ bs) legacy_url = b ∷ bs

-- The loop over the headers of a member.
unfoldable pub put_all : Map String → Map String → Map String
put_all [] out = out
put_all ((k, v) ∷ rest) out = put_all rest (put k v out)

unfoldable pub merge_headers : Map String → Map String → Map String
unfolding put_all
merge_headers pool_headers member_headers = put_all member_headers (put_all pool_headers [])

abbrev pub Pools : Type 0
Pools = String → Option BackendPoolConfig

pooled_backends : String → Option BackendPoolConfig → List Backend × String
unfolding merge_headers
pooled_backends name none = ([], "")
pooled_backends name (some pool) = (
  map {A = Backend} {B = Backend} (λ m. record m { headers = merge_headers pool.headers m.headers })
      pool.members,
  name,
)

unfoldable pub resolve_backends : Pools → ServiceConfig → List Backend × String
unfolding normalize_backends pooled_backends is_empty
resolve_backends pools cfg =
    if not (is_empty cfg.backends)
    then (normalize_backends cfg.backends cfg.inference_url, "")
    else if not (str_eq cfg.backend_pool "")
    then pooled_backends cfg.backend_pool (pools cfg.backend_pool)
    else (normalize_backends [] cfg.inference_url, "")

unfoldable pub weighted_url : List Backend → String → String
weighted_url [] url = url
weighted_url (b ∷ bs) url =
    let later = weighted_url bs url in if ltb 0 b.weight then b.url else later

unfoldable pub primary_url : List Backend → String → String
unfolding weighted_url
primary_url [] url = url
primary_url (b ∷ bs) url =
    let primary = weighted_url (b ∷ bs) url in if str_eq primary "" then b.url else primary

unfoldable pub new_def : Pools → ServiceConfig → Def
unfolding primary_url resolve_backends
new_def pools cfg =
    let (backends, pool_name) = resolve_backends pools cfg in
    record {
      service_type = cfg.service_type;
      model = cfg.model;
      max_file_size_mb = cfg.max_file_size_mb;
      inference_url = primary_url backends cfg.inference_url;
      backends = backends;
      pool_name = pool_name;
      operations = cfg.operations;
      provider = cfg.provider;
      backend_model = cfg.backend_model;
      budget_group = cfg.budget_group;
      fallback_model = cfg.fallback_model;
      retries = cfg.retries;
      visibility = cfg.visibility;
    }

unfoldable pub has_backend : ServiceConfig → Bool
unfolding is_empty
has_backend cfg =
    not (str_eq cfg.inference_url "")
    || not (is_empty cfg.backends)
    || not (str_eq cfg.backend_pool "")

unfoldable pub is_restricted : Def → Bool
unfolding is_empty
is_restricted d = not (is_empty d.visibility.user_types) || not (is_empty d.visibility.groups)

unfoldable pub among : String → List String → Bool
among x [] = false
among x (y ∷ ys) = str_eq y x || among x ys

unfoldable pub share : List String → List String → Bool
unfolding among
share [] ys = false
share (x ∷ xs) ys = among x ys || share xs ys

unfoldable pub visible_to : Def → String → List String → Bool
unfolding is_restricted among share
visible_to d user_type groups =
    if not (is_restricted d)
    then true
    else if not (str_eq user_type "") && among user_type d.visibility.user_types
    then true
    else share d.visibility.groups groups

unfoldable pub budget_key : Def → String
budget_key d = if not (str_eq d.budget_group "") then d.budget_group else d.model

pub data OperationError : Type 0 where
  several_operations unknown_operation no_paths : OperationError

pub data PathResult : Type 0 where
  path : String → PathResult
  failed : OperationError → PathResult

first_path : List String → OperationError → PathResult
first_path [] e = failed e
first_path (p ∷ ps) e = path p

unfoldable pub operation_path : Def → String → PathResult
unfolding first_path is_empty
operation_path d op =
    if is_empty d.operations
    then path ""
    else if str_eq op ""
    then elim (only d.operations) [
      | none ↦ failed several_operations
      | some paths ↦ first_path paths several_operations
    ]
    else elim (lookup op d.operations) [
      | none ↦ failed unknown_operation
      | some paths ↦ first_path paths no_paths
    ]
