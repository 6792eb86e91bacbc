-- ===== src/Guardrails/Examples.antt =====
-- pipeline.go: an order of arrival in which the second detector answers first.
use mathlib.Core.List.{Permᴰ}
use gatew_ai.Base.{refl, List, [], ◌∷◌}
use gatew_ai.Guardrails.{Item}

abbrev pub second_first : List Item → List Item
second_first [] = []
second_first (x ∷ []) = x ∷ []
second_first (x ∷ y ∷ rest) = y ∷ x ∷ rest

pub same : (xs : List Item) → Permᴰ xs (second_first xs)
same [] = Permᴰ.nil
same (x ∷ []) = Permᴰ.cons refl Permᴰ.nil
same (x ∷ y ∷ rest) = Permᴰ.swap refl refl
