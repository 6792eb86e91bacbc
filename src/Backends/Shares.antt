-- ===== src/Backends/Shares.antt =====
-- backend.go: how the drawn number chooses the primary backend.
use gatew_ai.Base.{
  ℕ, zero, suc, ◌+◌, ◌≤◌, ◌<◌, ◌≡◌, refl, ap, ◌∙◌, Bool, true, false, Option, none, some, ltb, ◌==◌,
  List, length, [], ◌∷◌, inl, inr, Bool-cases, arith, if◌then◌else◌,
}
use gatew_ai.Backends.{Backend, total_weight, break_index, primary_index}

-- How many of the `n` numbers from `a` on have a property.
abbrev pub count_from : (ℕ → Bool) → ℕ → ℕ → ℕ
count_from p a zero = 0
count_from p a (suc n) = let rest = count_from p (suc a) n in if p a then suc rest else rest

count_ext :
    (p q : ℕ → Bool) (a n : ℕ)
    → ((r : ℕ) → a ≤ r → r < a + n → p r ≡ q r)
    → count_from p a n ≡ count_from q a n
count_ext p q a zero h = refl
count_ext p q a (suc n) h = ground (
  arith,
  h a (omega arith) (omega arith),
  count_ext p q (suc a) n (λ r l u. h r (omega (arith, l)) (omega (arith, u))),
)

count_split :
    (p : ℕ → Bool) (a m n : ℕ) → count_from p a (m + n) ≡ count_from p a m + count_from p (a + m) n
count_split p a zero n = ground arith
count_split p a (suc m) n =
    let whole : suc m + n ≡ suc (m + n) = omega arith in
    let start : a + suc m ≡ suc a + m = omega arith in
    ground (
      arith,
      count_split p (suc a) m n,
      ap (count_from p a) whole,
      ap (λ b. count_from p b n) start,
    )

count_all : (a n : ℕ) → count_from (λ r. true) a n ≡ n
count_all a zero = refl
count_all a (suc n) = ap suc (count_all (suc a) n)

count_none : (a n : ℕ) → count_from (λ r. false) a n ≡ 0
count_none a zero = refl
count_none a (suc n) = count_none (suc a) n

-- The weight of the backend at an index.
abbrev pub weight_at : ℕ → List Backend → ℕ
weight_at i [] = 0
weight_at zero (b ∷ bs) = b.weight
weight_at (suc i) (b ∷ bs) = weight_at i bs

abbrev is_at : ℕ → Option ℕ → Bool
is_at i none = false
is_at i (some k) = k == i

later : (r c i j : ℕ) (bs : List Backend) → j < i → is_at j (break_index r c i bs) ≡ false
unfolding break_index
later r c i j [] l = refl
later r c i j (b ∷ bs) l = ground (arith, later r (c + b.weight) (suc i) j bs)

breaks :
    (r c i : ℕ) (bs : List Backend)
    → c ≤ r
    → r < c + total_weight bs
    → (k : ℕ) × (break_index r c i bs ≡ some k) × (k < i + length bs)
unfolding break_index total_weight
breaks r c i [] l u = (0, ground (arith, l, u), ground (arith, l, u))
breaks r c i (b ∷ bs) l u = elim (Bool-cases (ltb r (c + b.weight))) [
  | inl now ↦ (i, ground (arith, now), omega arith)
  | inr not_yet ↦
      let (k, e, le) =
        breaks r (c + b.weight) (suc i) bs (ground (arith, not_yet)) (ground (arith, u)) in
      (k, ground (arith, not_yet, e), omega (arith, le))
]

share :
    (c i j : ℕ) (bs : List Backend)
    → count_from (λ r. is_at (i + j) (break_index r c i bs)) c (total_weight bs) ≡ weight_at j bs
unfolding break_index total_weight
share c i j [] = refl
share c i zero (b ∷ bs) =
    let w = b.weight in
    let n = total_weight bs in
    let p : ℕ → Bool = λ r. is_at (i + 0) (break_index r c i (b ∷ bs)) in
    count_split p c w n
    ∙ ground (
      arith,
      count_ext p (λ r. true) c w (λ r l u. ground (arith, u)),
      count_all c w,
      count_ext p (λ r. false) (c + w) n
          (λ r l u. ground (arith, l, later r (c + w) (suc i) (i + 0) bs)),
      count_none (c + w) n,
    )
share c i (suc j) (b ∷ bs) =
    let w = b.weight in
    let n = total_weight bs in
    let p : ℕ → Bool = λ r. is_at (i + suc j) (break_index r c i (b ∷ bs)) in
    let q : ℕ → Bool = λ r. is_at (suc i + j) (break_index r (c + w) (suc i) bs) in
    count_split p c w n
    ∙ ground (
      arith,
      count_ext p (λ r. false) c w (λ r l u. ground (arith, u)),
      count_none c w,
      count_ext p q (c + w) n (λ r l u. ground (arith, l)),
      share (c + w) (suc i) j bs,
    )

-- The primary backend is drawn in proportion to the weights: of the numbers below the sum of the
-- weights, as many choose a backend as its weight says.
pub primary_index-share :
    (bs : List Backend) (j : ℕ)
    → count_from (λ r. primary_index r bs == j) 0 (total_weight bs) ≡ weight_at j bs
unfolding primary_index
primary_index-share bs j =
    count_ext (λ r. primary_index r bs == j) (λ r. is_at (0 + j) (break_index r 0 0 bs)) 0
      (total_weight bs) (λ r l u. let (k, e, le) = breaks r 0 0 bs l u in ground (arith, e))
    ∙ share 0 0 j bs

pub primary_in_range :
    (r : ℕ) (bs : List Backend) → r < total_weight bs → primary_index r bs < length bs
unfolding primary_index
primary_in_range r bs l =
    let (k, e, le) = breaks r 0 0 bs (omega arith) (omega (arith, l)) in ground (arith, e, le)
