-- ===== src/Backends/Sizes.antt =====
-- backend.go: the order of the backends is as long as their list.
use gatew_ai.Base.{
  ℕ, zero, suc, ◌+◌, ◌≡◌, some, List, length, length-append, [], ◌∷◌, Option-cases, inl, inr, arith,
}
use gatew_ai.Backends.{
  Backend, positives, zeroes, primary_index, taken_out, inserted, by_weight, arranged,
  ordered_backends,
}

partition-length : (bs : List Backend) → length (positives bs) + length (zeroes bs) ≡ length bs
unfolding positives zeroes
partition-length [] = omega arith
partition-length (b ∷ bs) = ground (arith, partition-length bs)

inserted-length : (b : Backend) (cs : List Backend) → length (inserted b cs) ≡ suc (length cs)
unfolding inserted
inserted-length b [] = omega arith
inserted-length b (c ∷ cs) = ground (arith, inserted-length b cs)

by_weight-length : (bs : List Backend) → length (by_weight bs) ≡ length bs
unfolding by_weight
by_weight-length [] = omega arith
by_weight-length (b ∷ bs) = ground (arith, by_weight-length bs, inserted-length b (by_weight bs))

taken_out-length :
    (i : ℕ) (bs : List Backend) (p : Backend) (rest : List Backend)
    → taken_out i bs ≡ some (p, rest)
    → suc (length rest) ≡ length bs
unfolding taken_out
taken_out-length i [] p rest h = ground (arith, h)
taken_out-length zero (b ∷ bs) p rest h = ground (arith, h)
taken_out-length (suc i) (b ∷ bs) p rest h = elim (Option-cases (taken_out i bs)) [
  | inl e ↦ ground (arith, e, h)
  | inr ((q, others), e) ↦ ground (arith, e, h, taken_out-length i bs q others e)
]

arranged-length :
    (r : ℕ) (bs ps out : List Backend)
    → length ps + length (zeroes bs) ≡ length bs
    → arranged r bs ps ≡ some out
    → length out ≡ length bs
unfolding arranged
arranged-length r bs [] out h e = ground (arith, h, e)
arranged-length r bs (p ∷ ps) out h e =
    elim (Option-cases (taken_out (primary_index r (p ∷ ps)) (p ∷ ps))) [
      | inl q ↦ ground (arith, q, e)
      | inr ((primary, rest), q) ↦ ground (
        arith,
        q,
        e,
        h,
        taken_out-length (primary_index r (p ∷ ps)) (p ∷ ps) primary rest q,
        by_weight-length rest,
        length-append (by_weight rest) (zeroes bs),
      )
    ]

pub ordered_backends-length :
    (r : ℕ) (bs out : List Backend) → ordered_backends r bs ≡ some out → length out ≡ length bs
unfolding ordered_backends
ordered_backends-length r bs out h = arranged-length r bs (positives bs) out (partition-length bs) h
