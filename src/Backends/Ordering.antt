-- ===== src/Backends/Ordering.antt =====
-- backend.go: what the order contains, and how it is sorted.
use mathlib.Core.List.{Perm, perm_middle}
use mathlib.Core.List.Perm
use gatew_ai.Base.{
  ℕ, zero, suc, ◌≤◌, ◌<◌, ◌≡◌, refl, some, ltb, List, length, [], ◌∷◌, ◌++◌, All, Bool-cases, ◌⊎◌,
  inl, inr, arith,
}
use gatew_ai.Backends.{
  Backend, positives, zeroes, total_weight, primary_index, taken_out, inserted, by_weight, arranged,
  ordered_backends,
}
use gatew_ai.Backends.Shares.{primary_in_range}

-- No backend outweighs one before it.
abbrev pub IsDescending : List Backend → Type 0
IsDescending [] = Unit
IsDescending (b ∷ bs) = All (λ c. c.weight ≤ b.weight) bs × IsDescending bs

partition-Perm : (bs : List Backend) → Perm (positives bs ++ zeroes bs) bs
unfolding positives zeroes
partition-Perm [] = Perm.nil
partition-Perm (b ∷ bs) = elim (Bool-cases (ltb 0 b.weight)) [
  | inl e ↦ rw e (Perm.cons b (partition-Perm bs))
  | inr e ↦
      rw e (Perm.trans (perm_middle (positives bs) (zeroes bs)) (Perm.cons b (partition-Perm bs)))
]

inserted-Perm : (b : Backend) (cs : List Backend) → Perm (inserted b cs) (b ∷ cs)
unfolding inserted
inserted-Perm b [] = Perm.rfl
inserted-Perm b (c ∷ cs) = elim (Bool-cases (ltb b.weight c.weight)) [
  | inl e ↦ rw e (Perm.trans (Perm.cons c (inserted-Perm b cs)) (Perm.swap b c cs))
  | inr e ↦ rw e Perm.rfl
]

by_weight-Perm : (bs : List Backend) → Perm (by_weight bs) bs
unfolding by_weight
by_weight-Perm [] = Perm.nil
by_weight-Perm (b ∷ bs) =
    Perm.trans (inserted-Perm b (by_weight bs)) (Perm.cons b (by_weight-Perm bs))

lighter :
    (m n : ℕ) (cs : List Backend) → m ≤ n → All (λ c. c.weight ≤ m) cs → All (λ c. c.weight ≤ n) cs
lighter m n [] l a = tt
lighter m n (c ∷ cs) l a = (omega (arith, l, a.0), lighter m n cs l a.1)

inserted-All :
    (n : ℕ) (b : Backend) (cs : List Backend)
    → b.weight ≤ n
    → All (λ c. c.weight ≤ n) cs
    → All (λ c. c.weight ≤ n) (inserted b cs)
unfolding inserted
inserted-All n b [] l a = (l, tt)
inserted-All n b (c ∷ cs) l a = elim (Bool-cases (ltb b.weight c.weight)) [
  | inl e ↦ rw e (a.0, inserted-All n b cs l a.1)
  | inr e ↦ rw e (l, a)
]

inserted-IsDescending :
    (b : Backend) (cs : List Backend) → IsDescending cs → IsDescending (inserted b cs)
unfolding inserted
inserted-IsDescending b [] d = (tt, tt)
inserted-IsDescending b (c ∷ cs) d = elim (Bool-cases (ltb b.weight c.weight)) [
  | inl e ↦ rw e (inserted-All c.weight b cs (ground arith) d.0, inserted-IsDescending b cs d.1)
  | inr e ↦ rw e ((ground arith, lighter c.weight b.weight cs (ground arith) d.0), d)
]

by_weight-IsDescending : (bs : List Backend) → IsDescending (by_weight bs)
unfolding by_weight
by_weight-IsDescending [] = tt
by_weight-IsDescending (b ∷ bs) = inserted-IsDescending b (by_weight bs) (by_weight-IsDescending bs)

positives-All : (bs : List Backend) → All (λ b. 0 < b.weight) (positives bs)
unfolding positives
positives-All [] = tt
positives-All (b ∷ bs) = elim (Bool-cases (ltb 0 b.weight)) [
  | inl e ↦ rw e (ground arith, positives-All bs)
  | inr e ↦ rw e (positives-All bs)
]

taken :
    (i : ℕ) (bs : List Backend)
    → i < length bs
    → All (λ b. 0 < b.weight) bs
    → (p : Backend) × (rest : List Backend) × (taken_out i bs ≡ some (p, rest))
      × (0 < p.weight)
      × Perm (p ∷ rest) bs
unfolding taken_out
taken i [] l a = absurd (omega (arith, l))
taken zero (b ∷ bs) l a = (b, bs, refl, a.0, Perm.rfl)
taken (suc i) (b ∷ bs) l a =
    let (p, rest, e, positive, perm) = taken i bs (omega (arith, l)) a.1 in
    (p, b ∷ rest, ground (arith, e), positive, Perm.trans (Perm.swap b p rest) (Perm.cons b perm))

arranged_taken :
    (r : ℕ) (bs ps : List Backend) (p : Backend) (rest : List Backend)
    → taken_out (primary_index r ps) ps ≡ some (p, rest)
    → arranged r bs ps ≡ some (p ∷ by_weight rest ++ zeroes bs)
unfolding arranged taken_out
arranged_taken r bs [] p rest e = cc
arranged_taken r bs (q ∷ ps) p rest e = ground (arith, e)

-- If some weight is positive, then whatever number below the sum of the weights is drawn the order is
-- one backend of positive weight, the others of positive weight from the heaviest to the lightest,
-- and those of weight zero in the order of the configuration.
pub ordered_backends-IsDescending :
    (r : ℕ) (bs : List Backend)
    → r < total_weight (positives bs)
    → (primary : Backend) × (rest : List Backend) × (ordered_backends r bs
        ≡ some (primary ∷ rest ++ zeroes bs))
      × (0 < primary.weight)
      × IsDescending rest
      × Perm (primary ∷ rest) (positives bs)
unfolding ordered_backends
ordered_backends-IsDescending r bs l =
    let (p, rest, e, positive, perm) =
      taken (primary_index r (positives bs)) (positives bs) (primary_in_range r (positives bs) l)
        (positives-All bs) in
    (
      p,
      by_weight rest,
      arranged_taken r bs (positives bs) p rest e,
      positive,
      by_weight-IsDescending rest,
      Perm.trans (Perm.cons p (by_weight-Perm rest)) perm,
    )

-- No backend is lost or tried twice: if some weight is positive, and a number below their sum is
-- drawn, or if none is, the order is a permutation of the backends.
pub ordered_backends-Perm :
    (r : ℕ) (bs : List Backend)
    → (r < total_weight (positives bs)) ⊎ (positives bs ≡ [])
    → (out : List Backend) × (ordered_backends r bs ≡ some out) × Perm out bs
unfolding ordered_backends
ordered_backends-Perm r bs (inl l) =
    let (p, rest, e, positive, descending, perm) = ordered_backends-IsDescending r bs l in
    (p ∷ rest ++ zeroes bs, e, Perm.trans (Perm.append_right (zeroes bs) perm) (partition-Perm bs))
ordered_backends-Perm r bs (inr h) = (bs, ground (arith, h), Perm.rfl)
