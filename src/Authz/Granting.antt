-- ===== src/Authz/Granting.antt =====
-- authz.go: what the engine decides, against the description of a rule that grants.
use mathlib.Core.List.{Memᴰ}
use gatew_ai.Base.{
  ◌≡◌, ◌≢◌, refl, ap, ◌↔◌, ◌⊎◌, inl, inr, Bool, true, false, not, ◌&&◌, Option, none, some, String,
  eq_iff, List, [], ◌∷◌, ◌++◌, arith, Bool-cases, ==-cases, ==-ne, subst, All,
}
use gatew_ai.Authz.{
  Principal, PolicyRule, PoliciesConfig, new_engine, or_anonymous, is_empty, glob_match_any,
  rule_grants_request, first_granting, evaluate,
}
use gatew_ai.Authz.Identity.{Identifies, identity_sound, identity_complete}

module _ (glob : String → String → Option Bool) where
  -- A pattern of the list matches the text, and is not malformed.
  abbrev pub Covers : List String → String → Type 0
  Covers patterns value = (p : String) × Memᴰ p patterns × (glob p value ≡ some true)

  -- A rule grants: its identity is the principal's, it lists the model, and if it lists service
  -- types it lists the service's.
  pub record Grants (o : Option Principal) (service model : String) (rule : PolicyRule)
      : Type 0 where
    pub identity : Identifies (or_anonymous o) rule.match_on
    pub models : Covers rule.allow_models model
    pub services : (rule.allow_service_types ≡ []) ⊎ Covers rule.allow_service_types service

  any_sound :
      (ps : List String) (value : String) → glob_match_any glob ps value ≡ true → Covers ps value
  unfolding glob_match_any
  any_sound [] value h = cc
  any_sound (p ∷ ps) value h = elim (glob-cases p value) [
    | inl e ↦ (p, Memᴰ.head refl, e)
    | inr skip ↦ let (q, m, e) = any_sound ps value (ground (arith, skip)) in (q, Memᴰ.tail m, e)
  ]
    where
      glob-cases : (p value : String) → (glob p value ≡ some true) ⊎ (glob p value ≢ some true)
      glob-cases p value = elim (glob p value) as (λ o. (o ≡ some true) ⊎ (o ≢ some true)) [
        | none ↦ inr (λ e. cc)
        | some true ↦ inl refl
        | some false ↦ inr (λ e. cc)
      ]

  any_complete :
      (ps : List String) (value p : String)
      → Memᴰ p ps
      → glob p value ≡ some true
      → glob_match_any glob ps value ≡ true
  unfolding glob_match_any
  any_complete [] value p m e = elim m [ ]
  any_complete (q ∷ ps) value p (Memᴰ.head h) e = ground (arith, ap (λ x. glob x value) h)
  any_complete (q ∷ ps) value p (Memᴰ.tail m) e = ground (arith, any_complete ps value p m e)

  module _ (o : Option Principal) (service model : String) where
    empty_false : (xs : List String) → is_empty xs ≡ true → xs ≡ []
    empty_false [] h = refl
    empty_false (x ∷ xs) h = cc

    service_cases :
        (xs : List String)
        → (not (is_empty xs) && not (glob_match_any glob xs service)) ≡ false
        → (xs ≡ []) ⊎ Covers xs service
    service_cases [] h = inl refl
    service_cases (x ∷ xs) h = inr (any_sound (x ∷ xs) service (ground arith))

    rule_sound :
        (rule : PolicyRule)
        → rule_grants_request glob o rule service model ≡ true
        → Grants o service model rule
    unfolding rule_grants_request
    rule_sound rule h = record {
      identity = identity_sound o rule.match_on (ground arith);
      models = any_sound rule.allow_models model (ground arith);
      services = service_cases rule.allow_service_types (ground arith);
    }

    not_empty : (xs : List String) (value : String) → Covers xs value → is_empty xs ≡ false
    not_empty [] value (p, m, e) = elim m [ ]
    not_empty (x ∷ xs) value c = refl

    service_open :
        (xs : List String)
        → (xs ≡ []) ⊎ Covers xs service
        → (not (is_empty xs) && not (glob_match_any glob xs service)) ≡ false
    service_open xs (inl e) = ground arith
    service_open xs (inr (p, m, e)) = ground (arith, any_complete xs service p m e)

    rule_complete :
        (rule : PolicyRule)
        → Grants o service model rule
        → rule_grants_request glob o rule service model ≡ true
    unfolding rule_grants_request
    rule_complete rule g =
        let (p, m, e) = g.models in
        ground (
          arith,
          identity_complete o rule.match_on g.identity,
          not_empty rule.allow_models model g.models,
          any_complete rule.allow_models model p m e,
          service_open rule.allow_service_types g.services,
        )

    first_sound :
        (rules : List PolicyRule)
        → (first_granting glob o rules service model).allowed ≡ true
        → (rule : PolicyRule) × Memᴰ rule rules × Grants o service model rule
    unfolding first_granting
    first_sound [] h = cc
    first_sound (rule ∷ rules) h =
        elim (Bool-cases (rule_grants_request glob o rule service model)) [
          | inl e ↦ (rule, Memᴰ.head refl, rule_sound rule e)
          | inr e ↦ let (r, m, g) = first_sound rules (rw e at h) in (r, Memᴰ.tail m, g)
        ]

    first_complete :
        (rules : List PolicyRule) (rule : PolicyRule)
        → Memᴰ rule rules
        → Grants o service model rule
        → (first_granting glob o rules service model).allowed ≡ true
    unfolding first_granting
    first_complete [] rule m g = elim m [ ]
    first_complete (r ∷ rules) rule (Memᴰ.head e) g =
        ground (arith, rule_complete r (subst (Grants o service model) e g))
    first_complete (r ∷ rules) rule (Memᴰ.tail m) g = ground (arith, first_complete rules rule m g)

    -- The engine of a configuration allows a request exactly if its default is "allow" or some rule
    -- of the configuration grants the request.
    pub allowed-evaluate :
        (cfg : PoliciesConfig)
        → ((evaluate glob (new_engine cfg) o service model).allowed ≡ true) ↔ (
            (cfg.default_effect ≡ "allow")
            ⊎ ((rule : PolicyRule) × Memᴰ rule cfg.rules × Grants o service model rule))
    unfolding evaluate new_engine
    allowed-evaluate cfg = (forth, back)
      where
        forth :
            (evaluate glob (new_engine cfg) o service model).allowed ≡ true
            → (cfg.default_effect ≡ "allow")
              ⊎ ((rule : PolicyRule) × Memᴰ rule cfg.rules × Grants o service model rule)
        forth h = elim (==-cases cfg.default_effect "allow") [
          | inl (e, test) ↦ inl e
          | inr (e, test) ↦ inr (first_sound cfg.rules (ground arith))
        ]

        back :
            (cfg.default_effect ≡ "allow")
              ⊎ ((rule : PolicyRule) × Memᴰ rule cfg.rules × Grants o service model rule)
            → (evaluate glob (new_engine cfg) o service model).allowed ≡ true
        back (inl e) = ground (arith, eq_iff cfg.default_effect "allow")
        back (inr (rule, m, g)) = ground (arith, first_complete cfg.rules rule m g)

    first_limits :
        (before rest : List PolicyRule) (rule : PolicyRule)
        → All (λ r. ¬ Grants o service model r) before
        → Grants o service model rule
        → first_granting glob o (before ++ rule ∷ rest) service model
          ≡ record { allowed = true; limits = rule.limits }
    unfolding first_granting
    first_limits [] rest rule u g = ground (arith, rule_complete rule g)
    first_limits (r ∷ before) rest rule u g =
        elim (Bool-cases (rule_grants_request glob o r service model)) [
          | inl e ↦ absurd (u.0 (rule_sound r e))
          | inr e ↦ rw e (first_limits before rest rule u.1 g)
        ]

    -- Under any default but "allow" the limits are those of the first rule that grants.
    pub limits-evaluate :
        (before rest : List PolicyRule) (rule : PolicyRule) (effect : String)
        → effect ≢ "allow"
        → All (λ r. ¬ Grants o service model r) before
        → Grants o service model rule
        → evaluate glob
            (new_engine (record { default_effect = effect; rules = before ++ rule ∷ rest }))
            o
            service
            model
          ≡ record { allowed = true; limits = rule.limits }
    unfolding evaluate new_engine
    limits-evaluate before rest rule effect d u g =
        ground (arith, ==-ne effect "allow" d, first_limits before rest rule u g)
