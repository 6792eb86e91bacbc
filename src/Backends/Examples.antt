-- ===== src/Backends/Examples.antt =====
-- backend.go: the theorems on the order, for three backends.
use gatew_ai.Base.{ℕ, ◌<◌, ◌≡◌, refl, List, [], ◌∷◌, String, ◌==◌, arith}
use gatew_ai.Backends.{Backend, positives, total_weight, primary_index}
use gatew_ai.Backends.Shares.{count_from, primary_index-share}

abbrev pub backend : String → ℕ → Backend
backend url n = record { url = url; weight = n; headers = []; model = "" }

abbrev three : List Backend
three = backend "a" 1 ∷ backend "spare" 0 ∷ backend "b" 3 ∷ []

four : total_weight (positives three) ≡ 4
unfolding total_weight positives
four = refl

in_range : 2 < total_weight (positives three)
in_range = omega (arith, four)

-- The draws 0 to 3 choose "a" once and "b" three times.
primary_index-share_example :
    count_from
      (λ r. primary_index r (backend "a" 1 ∷ backend "b" 3 ∷ []) == 1)
      0
      (total_weight (backend "a" 1 ∷ backend "b" 3 ∷ []))
    ≡ 3
primary_index-share_example = primary_index-share (backend "a" 1 ∷ backend "b" 3 ∷ []) 1
