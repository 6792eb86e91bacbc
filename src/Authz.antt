-- ===== src/Authz.antt =====
-- internal/authz/authz.go: the access policies. `filepath.Match` is a parameter: it returns whether a
-- pattern matches a text, or nothing for a malformed pattern.
pub mod Identity
pub mod Granting
pub mod Examples
use gatew_ai.Base.{
  Bool, true, false, not, ◌&&◌, Option, none, some, String, str_eq, List, [], ◌∷◌, map,
  if◌then◌else◌,
}
use gatew_ai.RateLimit.{RateLimitConfig}

-- internal/auth/auth.go
pub record Principal : Type 0 where
  pub subject : String
  pub consumer : String
  pub groups : List String
  pub roles : List String
  pub scopes : List String
  pub user_type : String
  pub authenticated : Bool

-- internal/config/config.go
pub record PolicyMatch : Type 0 where
  pub groups : List String
  pub roles : List String
  pub scopes : List String
  pub consumers : List String
  pub user_types : List String

pub record PolicyRule : Type 0 where
  pub match_on : PolicyMatch
  pub allow_models : List String
  pub allow_service_types : List String
  pub limits : Option RateLimitConfig

pub record PoliciesConfig : Type 0 where
  pub default_effect : String
  pub rules : List PolicyRule

-- A compiled rule has the fields of the rule.
pub record Engine : Type 0 where
  pub default_allow : Bool
  pub rules : List PolicyRule

pub record Decision : Type 0 where
  pub allowed : Bool
  pub limits : Option RateLimitConfig

unfoldable pub new_engine : PoliciesConfig → Engine
new_engine cfg = record { default_allow = str_eq cfg.default_effect "allow"; rules = cfg.rules }

-- A nil principal has nothing.
unfoldable pub or_anonymous : Option Principal → Principal
or_anonymous none = record {
  subject = "";
  consumer = "";
  groups = [];
  roles = [];
  scopes = [];
  user_type = "";
  authenticated = false;
}
or_anonymous (some p) = p

abbrev pub is_empty {ℓ} : {A : Type ℓ} → List A → Bool
is_empty [] = true
is_empty (x ∷ xs) = false

unfoldable pub contains : List String → String → Bool
contains [] needle = false
contains (v ∷ haystack) needle = if str_eq v needle then true else contains haystack needle

unfoldable pub inner_found : String → List String → Bool
inner_found x [] = false
inner_found x (y ∷ b) = if str_eq x y then true else inner_found x b

unfoldable pub intersects : List String → List String → Bool
intersects [] b = false
intersects (x ∷ a) b = if inner_found x b then true else intersects a b

unfoldable pub match_identity : Option Principal → PolicyMatch → Bool
match_identity principal m =
    let p = or_anonymous principal in
    if not (is_empty m.groups) && not (intersects p.groups m.groups)
    then false
    else if not (is_empty m.roles) && not (intersects p.roles m.roles)
    then false
    else if not (is_empty m.scopes) && not (intersects p.scopes m.scopes)
    then false
    else if not (is_empty m.consumers) && not (contains m.consumers p.consumer)
    then false
    else if not (is_empty m.user_types) && not (contains m.user_types p.user_type)
    then false
    else true

module _ (glob : String → String → Option Bool) where
  -- A malformed pattern is skipped.
  unfoldable pub glob_match_any : List String → String → Bool
  glob_match_any [] value = false
  glob_match_any (pattern_text ∷ patterns) value =
      let rest = glob_match_any patterns value in
      elim (glob pattern_text value) [ none ↦ rest | some matched ↦ if matched then true else rest ]

  unfoldable pub rule_grants_request : Option Principal → PolicyRule → String → String → Bool
  rule_grants_request p rule service model =
      if not (match_identity p rule.match_on)
      then false
      else if is_empty rule.allow_models
      then false
      else if not (glob_match_any rule.allow_models model)
      then false
      else if not (is_empty rule.allow_service_types)
          && not (glob_match_any rule.allow_service_types service)
      then false
      else true

  unfoldable pub first_granting : Option Principal → List PolicyRule → String → String → Decision
  first_granting p [] service model = record { allowed = false; limits = none }
  first_granting p (rule ∷ rules) service model =
      if rule_grants_request p rule service model
      then record { allowed = true; limits = rule.limits }
      else first_granting p rules service model

  unfoldable pub evaluate : Engine → Option Principal → String → String → Decision
  evaluate e p service model =
      if e.default_allow
      then record { allowed = true; limits = none }
      else first_granting p e.rules service model

  unfoldable pub allowed : Engine → Option Principal → String → String → Bool
  allowed e p service model = (evaluate e p service model).allowed
