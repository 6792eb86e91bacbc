-- ===== src/Registry/Maps.antt =====
-- Go maps by text keys, as lists of keys and values.
use gatew_ai.Base.{
  ◌≡◌, refl, Option, none, some, String, str_eq, eq_iff, List, [], ◌∷◌, if◌then◌else◌, arith,
}

abbrev pub Map {ℓ} : Type ℓ → Type ℓ
Map V = List (String × V)

module _ {ℓ} {V : Type ℓ} where
  unfoldable pub lookup : String → Map V → Option V
  lookup k [] = none
  lookup k ((j, v) ∷ rest) = let later = lookup k rest in if str_eq j k then some v else later

  unfoldable pub put : String → V → Map V → Map V
  put k v [] = (k, v) ∷ []
  put k v ((j, w) ∷ rest) =
      let later = put k v rest in if str_eq j k then (j, v) ∷ rest else (j, w) ∷ later

  pub lookup-put :
      (k : String) (v : V) (m : Map V) (j : String)
      → lookup j (put k v m) ≡ (if str_eq k j then some v else lookup j m)
  unfolding lookup put
  lookup-put k v [] j = refl
  lookup-put k v ((i, w) ∷ rest) j =
      ground (arith, eq_iff i k, eq_iff i j, eq_iff k j, lookup-put k v rest j)

  -- The only value of a map that has one.
  unfoldable pub only : Map V → Option V
  only [] = none
  only ((k, v) ∷ []) = some v
  only (a ∷ b ∷ rest) = none

  pub lookup-only :
      (k : String) (m : Map V) (v w : V) → only m ≡ some v → lookup k m ≡ some w → w ≡ v
  unfolding lookup only
  lookup-only k [] v w h g = ground (arith, h)
  lookup-only k ((j, x) ∷ []) v w h g = ground (arith, h, g)
  lookup-only k (a ∷ b ∷ rest) v w h g = ground (arith, h)
