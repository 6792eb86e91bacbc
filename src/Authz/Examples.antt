-- ===== src/Authz/Examples.antt =====
-- authz.go: the theorems at a policy with two rules.
use mathlib.Core.List.{Memᴰ}
use gatew_ai.Base.{
  ◌≡◌, refl, ◌↔◌, ◌⊎◌, inl, inr, Bool, true, false, Option, none, some, String, str_eq, List, [],
  ◌∷◌, if◌then◌else◌,
}
use gatew_ai.RateLimit.{no_limits}
use gatew_ai.Authz.{
  Principal, PolicyMatch, PolicyRule, new_engine, or_anonymous, evaluate, first_granting,
  rule_grants_request, match_identity, glob_match_any, intersects,
}
use gatew_ai.Authz.Granting.{Grants, allowed-evaluate}

-- "*" matches every text, "[" is malformed, any other pattern matches itself.
abbrev simple_glob : String → String → Option Bool
simple_glob p value =
    if str_eq p "[" then none else if str_eq p "*" then some true else some (str_eq p value)

abbrev ada : Principal
ada = record {
  subject = "1";
  consumer = "ada";
  groups = "staff" ∷ [];
  roles = [];
  scopes = [];
  user_type = "premium";
  authenticated = true;
}

abbrev anyone : PolicyMatch
anyone = record { groups = []; roles = []; scopes = []; consumers = []; user_types = [] }

abbrev lists_nothing : PolicyRule
lists_nothing = record {
  match_on = anyone;
  allow_models = [];
  allow_service_types = [];
  limits = none;
}

abbrev staff_only : PolicyRule
staff_only = record {
  match_on = record anyone { groups = "admins" ∷ "staff" ∷ [] };
  allow_models = "[" ∷ "*" ∷ [];
  allow_service_types = [];
  limits = some no_limits;
}

abbrev rules : List PolicyRule
rules = lists_nothing ∷ staff_only ∷ []

anonymous_denied :
    (evaluate simple_glob
      (new_engine (record { default_effect = ""; rules = rules }))
      none
      "audio"
      "m").allowed
    ≡ false
unfolding evaluate new_engine first_granting rule_grants_request match_identity or_anonymous
    glob_match_any intersects
anonymous_denied = refl

staff-Grants : Grants simple_glob (some ada) "audio" "m" staff_only
unfolding or_anonymous
staff-Grants = record {
  identity = record {
    groups = inr ("staff", Memᴰ.head refl, Memᴰ.tail (Memᴰ.head refl));
    roles = inl refl;
    scopes = inl refl;
    consumers = inl refl;
    user_types = inl refl;
  };
  models = ("*", Memᴰ.tail (Memᴰ.head refl), refl);
  services = inl refl;
}

nothing_granted : ¬ Grants simple_glob (some ada) "audio" "m" lists_nothing
nothing_granted g = elim (g.models.1) [ ]

allowed-evaluate_example :
    ((evaluate simple_glob
        (new_engine (record { default_effect = "deny"; rules = rules }))
        (some ada)
        "audio"
        "m").allowed
      ≡ true)
    ↔ ((◌≡◌ {A = String} "deny" "allow")
        ⊎ ((rule : PolicyRule) × Memᴰ rule rules × Grants simple_glob (some ada) "audio" "m" rule))
allowed-evaluate_example =
    allowed-evaluate simple_glob (some ada) "audio" "m"
      (record { default_effect = "deny"; rules = rules })
