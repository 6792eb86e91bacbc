-- ===== src/Base/Dicts.antt =====
-- Dictionaries by text keys, as functions, and when two texts are equal.
use Prim.Native.String.{String, count, ◌++◌ as append}
use mathlib.Core.Path.{◌≡◌, ◌∙◌}
use mathlib.Core.Logic.{◌≢◌, ◌⊎◌, inl, inr}
use mathlib.Core.Bool.{true, false}
use native.Mathlib.Omega.{arith}
use text.Mathlib.Text.{◌==◌}
use text.Mathlib.TextEquality.{eq_iff}
use text.Mathlib.TextLemmas.{append_assoc, append_inj}
use gatew_ai.Base.Tests.{if◌then◌else◌, Bool-cases}

abbrev pub update {ℓ} : {V : Type ℓ} → String → V → (String → V) → String → V
update k v m j = if k == j then v else m j

abbrev pub update₂ {ℓ} :
    {V : Type ℓ} → String → String → V → (String → String → V) → String → String → V
update₂ k l v m = update k (update l v (m k)) m

pub ==-ne : (s t : String) → s ≢ t → (s == t) ≡ false
==-ne s t h = ground (arith, eq_iff s t)

-- To split on whether two texts are equal.
pub ==-cases : (s t : String) → ((s ≡ t) × ((s == t) ≡ true)) ⊎ ((s ≢ t) × ((s == t) ≡ false))
==-cases s t = elim (Bool-cases (s == t)) [
  | inl e ↦ inl ((eq_iff s t).0 e, e)
  | inr e ↦ inr (λ p. ground (arith, eq_iff s t), e)
]

-- Texts that differ in a prefix of one length differ.
pub prefix-ne :
    (p q r x y : String) → count p ≡ count q → p ≢ q → append p x ≢ append (append q r) y
prefix-ne p q r x y c h e = h (append_inj (e ∙ append_assoc q r y) c).0
