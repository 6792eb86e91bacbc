-- ===== src/Backends.antt =====
-- internal/service/backend.go: the order in which the backends of a service are tried. The number
-- that rand.IntN draws is an argument. Weights are natural numbers, as the configuration's validation
-- (internal/config/config.go) has no negative ones, and their sum is no machine integer.
pub mod Shares
pub mod Ordering
pub mod Sizes
pub mod Examples
use gatew_ai.Base.{
  ℕ, zero, suc, ◌+◌, ◌≡◌, Bool, true, false, Option, none, some, String, ltb, List, [], ◌∷◌, ◌++◌,
  if◌then◌else◌,
}

pub record Backend : Type 0 where
  pub url : String
  pub weight : ℕ
  pub headers : List (String × String)
  pub model : String

unfoldable pub positives : List Backend → List Backend
positives [] = []
positives (b ∷ bs) = if ltb 0 b.weight then b ∷ positives bs else positives bs

unfoldable pub zeroes : List Backend → List Backend
zeroes [] = []
zeroes (b ∷ bs) = if ltb 0 b.weight then zeroes bs else b ∷ zeroes bs

unfoldable pub total_weight : List Backend → ℕ
total_weight [] = 0
total_weight (b ∷ bs) = b.weight + total_weight bs

-- The loop over the positive weights from index `i`: where it breaks, if it does.
unfoldable pub break_index : ℕ → ℕ → ℕ → List Backend → Option ℕ
break_index r cumulative i [] = none
break_index r cumulative i (b ∷ bs) =
    let later = break_index r (cumulative + b.weight) (suc i) bs in
    if ltb r (cumulative + b.weight) then some i else later

unfoldable pub primary_index : ℕ → List Backend → ℕ
primary_index r bs = elim (break_index r 0 0 bs) [ none ↦ 0 | some i ↦ i ]

abbrev with_front : Backend → Option (Backend × List Backend) → Option (Backend × List Backend)
with_front b none = none
with_front b (some (p, rest)) = some (p, b ∷ rest)

-- The backend at an index and the others; nothing out of range.
unfoldable pub taken_out : ℕ → List Backend → Option (Backend × List Backend)
taken_out i [] = none
taken_out zero (b ∷ bs) = some (b, bs)
taken_out (suc i) (b ∷ bs) = with_front b (taken_out i bs)

-- sort.SliceStable by descending weight.
unfoldable pub inserted : Backend → List Backend → List Backend
inserted b [] = b ∷ []
inserted b (c ∷ cs) = if ltb b.weight c.weight then c ∷ inserted b cs else b ∷ c ∷ cs

unfoldable pub by_weight : List Backend → List Backend
by_weight [] = []
by_weight (b ∷ bs) = inserted b (by_weight bs)

-- `none` stands for the panic of an index out of range.
arranged : ℕ → List Backend → List Backend → Option (List Backend)
arranged r bs [] = some bs
arranged r bs (p ∷ ps) = elim (taken_out (primary_index r (p ∷ ps)) (p ∷ ps)) [
  | none ↦ none
  | some (primary, rest) ↦ some (primary ∷ by_weight rest ++ zeroes bs)
]

unfoldable pub ordered_backends : ℕ → List Backend → Option (List Backend)
unfolding arranged
ordered_backends r bs = arranged r bs (positives bs)
