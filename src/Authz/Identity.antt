-- ===== src/Authz/Identity.antt =====
-- authz.go: when a principal meets the identity of a rule.
use mathlib.Core.List.{Memᴰ}
use gatew_ai.Base.{
  ◌≡◌, refl, sym, ◌↔◌, ◌⊎◌, inl, inr, Bool, true, false, not, ◌&&◌, Option, String, eq_iff, List,
  [], ◌∷◌, arith, Bool-cases, ==-cases,
}
use gatew_ai.Authz.{
  Principal, PolicyMatch, or_anonymous, is_empty, contains, inner_found, intersects, match_identity,
}

-- One of the values is the principal's.
abbrev pub Shares : List String → List String → Type 0
Shares own wanted = (x : String) × Memᴰ x own × Memᴰ x wanted

-- The rule's identity: each list that is not empty names something of the principal.
pub record Identifies (p : Principal) (m : PolicyMatch) : Type 0 where
  pub groups : (m.groups ≡ []) ⊎ Shares p.groups m.groups
  pub roles : (m.roles ≡ []) ⊎ Shares p.roles m.roles
  pub scopes : (m.scopes ≡ []) ⊎ Shares p.scopes m.scopes
  pub consumers : (m.consumers ≡ []) ⊎ Memᴰ p.consumer m.consumers
  pub user_types : (m.user_types ≡ []) ⊎ Memᴰ p.user_type m.user_types

contains_sound : (xs : List String) (x : String) → contains xs x ≡ true → Memᴰ x xs
unfolding contains
contains_sound [] x h = cc
contains_sound (v ∷ xs) x h = elim (==-cases v x) [
  | inl (same, test) ↦ Memᴰ.head (sym same)
  | inr (other, test) ↦ Memᴰ.tail (contains_sound xs x (rw test at h))
]

contains_complete : (xs : List String) (x : String) → Memᴰ x xs → contains xs x ≡ true
unfolding contains
contains_complete [] x m = elim m [ ]
contains_complete (v ∷ xs) x (Memᴰ.head e) = ground (arith, eq_iff v x)
contains_complete (v ∷ xs) x (Memᴰ.tail m) = ground (arith, contains_complete xs x m)

inner_sound : (x : String) (b : List String) → inner_found x b ≡ true → Memᴰ x b
unfolding inner_found
inner_sound x [] h = cc
inner_sound x (y ∷ b) h = elim (==-cases x y) [
  | inl (same, test) ↦ Memᴰ.head same
  | inr (other, test) ↦ Memᴰ.tail (inner_sound x b (rw test at h))
]

inner_complete : (x : String) (b : List String) → Memᴰ x b → inner_found x b ≡ true
unfolding inner_found
inner_complete x [] m = elim m [ ]
inner_complete x (y ∷ b) (Memᴰ.head e) = ground (arith, eq_iff x y)
inner_complete x (y ∷ b) (Memᴰ.tail m) = ground (arith, inner_complete x b m)

intersects_sound : (a b : List String) → intersects a b ≡ true → Shares a b
unfolding intersects
intersects_sound [] b h = cc
intersects_sound (x ∷ a) b h = elim (Bool-cases (inner_found x b)) [
  | inl e ↦ (x, Memᴰ.head refl, inner_sound x b e)
  | inr e ↦ let (y, own, wanted) = intersects_sound a b (rw e at h) in (y, Memᴰ.tail own, wanted)
]

intersects_complete : (a b : List String) (x : String) → Memᴰ x a → Memᴰ x b → intersects a b ≡ true
unfolding intersects
intersects_complete [] b x m n = elim m [ ]
intersects_complete (y ∷ a) b x (Memᴰ.head e) n = ground (arith, inner_complete x b n)
intersects_complete (y ∷ a) b x (Memᴰ.tail m) n = ground (arith, intersects_complete a b x m n)

-- A list that restricts, and its test.
restricts : List String → Bool → Bool
restricts xs test = not (is_empty xs) && not test

restricts_sound {ℓ} :
    {P : Type ℓ} (xs : List String) (test : Bool)
    → (test ≡ true → P)
    → restricts xs test ≡ false
    → (xs ≡ []) ⊎ P
unfolding restricts
restricts_sound [] test f h = inl refl
restricts_sound (x ∷ xs) true f h = inr (f refl)
restricts_sound (x ∷ xs) false f h = cc

restricts_complete {ℓ} :
    {P : Type ℓ} (xs : List String) (test : Bool)
    → (P → test ≡ true)
    → (xs ≡ []) ⊎ P
    → restricts xs test ≡ false
unfolding restricts
restricts_complete xs test f (inl e) = ground arith
restricts_complete xs test f (inr p) = ground (arith, f p)

identity_tests :
    (o : Option Principal) (m : PolicyMatch)
    → let p = or_anonymous o in
      (match_identity o m ≡ true) ↔ (
        (restricts m.groups (intersects p.groups m.groups) ≡ false)
        × (restricts m.roles (intersects p.roles m.roles) ≡ false)
        × (restricts m.scopes (intersects p.scopes m.scopes) ≡ false)
        × (restricts m.consumers (contains m.consumers p.consumer) ≡ false)
        × (restricts m.user_types (contains m.user_types p.user_type) ≡ false))
unfolding match_identity restricts
identity_tests o m = (λ h. ground arith, λ h. ground arith)

pub identity_sound :
    (o : Option Principal) (m : PolicyMatch)
    → match_identity o m ≡ true
    → Identifies (or_anonymous o) m
identity_sound o m h =
    let (g, r, s, c, u) = (identity_tests o m).0 h in
    record {
      groups = restricts_sound m.groups _ (intersects_sound _ m.groups) g;
      roles = restricts_sound m.roles _ (intersects_sound _ m.roles) r;
      scopes = restricts_sound m.scopes _ (intersects_sound _ m.scopes) s;
      consumers = restricts_sound m.consumers _ (contains_sound m.consumers _) c;
      user_types = restricts_sound m.user_types _ (contains_sound m.user_types _) u;
    }

shared : (a b : List String) → Shares a b → intersects a b ≡ true
shared a b (x, m, n) = intersects_complete a b x m n

pub identity_complete :
    (o : Option Principal) (m : PolicyMatch)
    → Identifies (or_anonymous o) m
    → match_identity o m ≡ true
identity_complete o m i = (identity_tests o m).1 (
  restricts_complete m.groups _ (shared _ m.groups) i.groups,
  restricts_complete m.roles _ (shared _ m.roles) i.roles,
  restricts_complete m.scopes _ (shared _ m.scopes) i.scopes,
  restricts_complete m.consumers _ (contains_complete m.consumers _) i.consumers,
  restricts_complete m.user_types _ (contains_complete m.user_types _) i.user_types,
)
