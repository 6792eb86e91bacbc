-- ===== src/Stream/Cut.antt =====
-- guardrails.go: the prefix that SafeRedactPrefix releases ends inside no match.
use gatew_ai.Base.{
  ℕ, zero, suc, ◌+◌, ◌-◌, ◌≤◌, ◌≡◌, refl, ◌⊎◌, inl, inr, Bool, true, ◌||◌, ◌&&◌, leb, ltb, ◌==◌,
  List, [], ◌∷◌, length, if◌then◌else◌, arith, All, Bool-cases,
}
use gatew_ai.Stream.{
  Bytes, Span, starts_at, snap, insert_span, sort_spans, merge_from, merged, match_spans, uncut,
  Patterns, safe_redact_prefix,
}
use gatew_ai.Stream.Window.{snap_le, snap-starts_at}

-- A boundary that is not inside a span.
abbrev pub Uncut : ℕ → Span → Type 0
Uncut b s = (b ≤ s.0) ⊎ (s.1 ≤ b)

abbrev IsSorted : List Span → Type 0
IsSorted [] = Unit
IsSorted (s ∷ ss) = All (λ t. s.0 ≤ t.0) ss × IsSorted ss

abbrev IsApart : List Span → Type 0
IsApart [] = Unit
IsApart (s ∷ ss) = All (λ t. s.1 ≤ t.0) ss × IsApart ss

from_lower : (m n : ℕ) (ss : List Span) → m ≤ n → All (λ t. n ≤ t.0) ss → All (λ t. m ≤ t.0) ss
from_lower m n [] l h = tt
from_lower m n (s ∷ ss) l h = (omega (arith, l, h.0), from_lower m n ss l h.1)

insert-from :
    (n : ℕ) (s : Span) (ts : List Span)
    → n ≤ s.0
    → All (λ t. n ≤ t.0) ts
    → All (λ t. n ≤ t.0) (insert_span s ts)
unfolding insert_span
insert-from n s [] l h = (l, tt)
insert-from n s (t ∷ ts) l h = ground (arith, l, h, insert-from n s ts l h.1)

insert-IsSorted : (s : Span) (ts : List Span) → IsSorted ts → IsSorted (insert_span s ts)
unfolding insert_span
insert-IsSorted s [] h = (tt, tt)
insert-IsSorted s (t ∷ ts) h = elim (Bool-cases (leb s.0 t.0)) [
  | inl e ↦ rw e ((ground arith, from_lower s.0 t.0 ts (ground arith) h.0), h)
  | inr e ↦ rw e (insert-from t.0 s ts (ground arith) h.0, insert-IsSorted s ts h.1)
]

sort-IsSorted : (ss : List Span) → IsSorted (sort_spans ss)
unfolding sort_spans
sort-IsSorted [] = tt
sort-IsSorted (s ∷ ss) = insert-IsSorted s (sort_spans ss) (sort-IsSorted ss)

module _ {κ} (P : Span → Type κ) where
  insert-All : (s : Span) (ts : List Span) → P s → All P ts → All P (insert_span s ts)
  unfolding insert_span
  insert-All s [] p h = (p, tt)
  insert-All s (t ∷ ts) p h = elim (Bool-cases (leb s.0 t.0)) [
    | inl e ↦ rw e (p, h)
    | inr e ↦ rw e (h.0, insert-All s ts p h.1)
  ]

  sort-All : (ss : List Span) → All P ss → All P (sort_spans ss)
  unfolding sort_spans
  sort-All [] h = tt
  sort-All (s ∷ ss) h = insert-All s (sort_spans ss) h.0 (sort-All ss h.1)

  All-insert : (s : Span) (ts : List Span) → All P (insert_span s ts) → P s × All P ts
  unfolding insert_span
  All-insert s [] h = h
  All-insert s (t ∷ ts) h = elim (Bool-cases (leb s.0 t.0)) [
    | inl e ↦ rw e at h
    | inr e ↦
        let k : P t × All P (insert_span s ts) = rw e at h in
        let (p, q) = All-insert s ts k.1 in (p, (k.0, q))
  ]

  All-sort : (ss : List Span) → All P (sort_spans ss) → All P ss
  unfolding sort_spans
  All-sort [] h = tt
  All-sort (s ∷ ss) h = let (p, q) = All-insert s (sort_spans ss) h in (p, All-sort ss q)

merge-from :
    (n : ℕ) (last : Span) (ss : List Span)
    → n ≤ last.0
    → All (λ t. n ≤ t.0) ss
    → All (λ t. n ≤ t.0) (merge_from last ss)
unfolding merge_from
merge-from n last [] l h = (l, tt)
merge-from n last (s ∷ ss) l h = ground (
  arith,
  l,
  h,
  merge-from n (last.0, s.1) ss l h.1,
  merge-from n last ss l h.1,
  merge-from n s ss h.0 h.1,
)

merge-IsApart :
    (last : Span) (ss : List Span)
    → All (λ t. last.0 ≤ t.0) ss
    → IsSorted ss
    → IsApart (merge_from last ss)
unfolding merge_from
merge-IsApart last [] l h = (tt, tt)
merge-IsApart last (s ∷ ss) l h = elim (Bool-cases (leb s.0 last.1)) [
  | inl e ↦ ground (arith, e, merge-IsApart (last.0, s.1) ss l.1 h.1, merge-IsApart last ss l.1 h.1)
  | inr e ↦
      let after : last.1 ≤ s.0 = ground (arith, e) in
      rw e (
        merge-from last.1 s ss after (from_lower last.1 s.0 ss after h.0),
        merge-IsApart s ss h.0 h.1,
      )
]

-- The spans that were merged are inside the merged ones.
All-merge :
    (b : ℕ) (last : Span) (ss : List Span)
    → All (λ t. last.0 ≤ t.0) ss
    → IsSorted ss
    → All (Uncut b) (merge_from last ss)
    → Uncut b last × All (Uncut b) ss
unfolding merge_from
All-merge b last [] l h k = (k.0, tt)
All-merge b last (s ∷ ss) l h k = elim (Bool-cases (leb s.0 last.1)) [
  | inr e ↦
      let parts : Uncut b last × All (Uncut b) (merge_from s ss) = rw e at k in
      (parts.0, All-merge b s ss h.0 h.1 parts.1)
  | inl e ↦ elim (Bool-cases (ltb last.1 s.1)) [
    | inl f ↦
        let wide : All (Uncut b) (merge_from (last.0, s.1) ss) = rw (e, f) at k in
        let (here, rest) = All-merge b (last.0, s.1) ss l.1 h.1 wide in
        (ground (arith, here, f), (ground (arith, here, l.0), rest))
    | inr f ↦
        let kept : All (Uncut b) (merge_from last ss) = rw (e, f) at k in
        let (here, rest) = All-merge b last ss l.1 h.1 kept in
        (here, (ground (arith, here, f, l.0), rest))
  ]
]

merge-All :
    (P : ℕ → Type 0) (last : Span) (ss : List Span)
    → P last.1
    → All (λ t. P t.1) ss
    → All (λ t. P t.1) (merge_from last ss)
unfolding merge_from
merge-All P last [] p h = (p, tt)
merge-All P last (s ∷ ss) p h = elim (Bool-cases (leb s.0 last.1)) [
  | inr e ↦ rw e (p, merge-All P s ss h.0 h.1)
  | inl e ↦ elim (Bool-cases (ltb last.1 s.1)) [
    | inl f ↦ rw (e, f) (merge-All P (last.0, s.1) ss h.0 h.1)
    | inr f ↦ rw (e, f) (merge-All P last ss p h.1)
  ]
]

uncut_le : (ss : List Span) (b : ℕ) → uncut ss b ≤ b
unfolding uncut
uncut_le [] b = omega arith
uncut_le (s ∷ ss) b = ground (arith, uncut_le ss b, uncut_le ss s.0)

uncut_from : (n : ℕ) (ss : List Span) (b : ℕ) → n ≤ b → All (λ t. n ≤ t.0) ss → n ≤ uncut ss b
unfolding uncut
uncut_from n [] b l h = l
uncut_from n (s ∷ ss) b l h =
    ground (arith, l, h, uncut_from n ss b l h.1, uncut_from n ss s.0 h.0 h.1)

uncut-Uncut : (ss : List Span) (b : ℕ) → IsApart ss → All (Uncut (uncut ss b)) ss
unfolding uncut
uncut-Uncut [] b h = tt
uncut-Uncut (s ∷ ss) b h =
    let c = if ltb s.0 b && ltb b s.1 then s.0 else b in
    let low = uncut_le ss c in
    let here : Uncut (uncut ss c) s = elim (Bool-cases (leb c s.0)) [
      | inl e ↦ inl (ground (arith, e, low))
      | inr e ↦ inr (uncut_from s.1 ss c (ground (arith, e)) h.0)
    ] in
    (here, uncut-Uncut ss c h.1)

snap_most : (k n : ℕ) (s : Bytes) → k ≤ n → starts_at k s ≡ true → k ≤ snap n s
unfolding snap
snap_most k zero s l h = l
snap_most k (suc n) s l h = elim (Bool-cases (leb k n)) [
  | inl e ↦ ground (arith, l, h, snap_most k n s (ground (arith, e)) h)
  | inr e ↦ let same : suc n ≡ k = ground (arith, e, l) in ground (arith, l, h, same)
]

-- Going back to a boundary of runes enters no span that ends at one.
snap-Uncut :
    (b : ℕ) (text : Bytes) (ss : List Span)
    → All (λ t. starts_at t.1 text ≡ true) ss
    → All (Uncut b) ss
    → All (Uncut (snap b text)) ss
snap-Uncut b text [] a h = tt
snap-Uncut b text (s ∷ ss) a h =
    let here : Uncut (snap b text) s = elim h.0 [
      | inl l ↦ inl (omega (arith, l, snap_le b text))
      | inr l ↦ inr (snap_most s.1 b text l a.0)
    ] in
    (here, snap-Uncut b text ss a.1 h.1)

Uncut-zero : (ss : List Span) → All (Uncut 0) ss
Uncut-zero [] = tt
Uncut-zero (s ∷ ss) = (inl (omega arith), Uncut-zero ss)

cut_merged :
    (text : Bytes) (b : ℕ) (ss : List Span)
    → IsSorted ss
    → All (λ t. starts_at t.1 text ≡ true) ss
    → All (Uncut (snap (uncut (merged ss) b) text)) ss
unfolding merged
cut_merged text b [] h a = tt
cut_merged text b (s ∷ ss) h a =
    let spans = merge_from s ss in
    let ends = merge-All (λ n. starts_at n text ≡ true) s ss a.0 a.1 in
    let apart = uncut-Uncut spans b (merge-IsApart s ss h.0 h.1) in
    All-merge (snap (uncut spans b) text) s ss h.0 h.1
      (snap-Uncut (uncut spans b) text spans ends apart)

cut_found :
    (text : Bytes) (b : ℕ) (found : List Span)
    → All (λ t. starts_at t.1 text ≡ true) found
    → All (Uncut (snap (uncut (match_spans found) b) text)) found
unfolding match_spans
cut_found text b found a =
    All-sort (Uncut (snap (uncut (merged (sort_spans found)) b) text)) found (
      cut_merged text b (sort_spans found) (sort-IsSorted found)
        (sort-All (λ t. starts_at t.1 text ≡ true) found a))

-- If every match that is found ends between two runes, the prefix that is released ends inside none of them,
-- overlapping ones included, and between two runes, and at least `hold` bytes are kept back unless none is released.
pub safe_redact_prefix-Uncut :
    (patterns : Patterns) (accepts : ℕ → Bool) (text : Bytes) (hold : ℕ)
    → All (λ t. starts_at t.1 text ≡ true) (patterns.found text)
    → let (out, consumed, matched) = safe_redact_prefix patterns accepts text hold in
      All (Uncut consumed) (patterns.found text)
      × ((consumed ≡ 0) ⊎ (consumed + hold ≤ length text))
      × ((consumed ≡ 0) ⊎ (starts_at consumed text ≡ true))
unfolding safe_redact_prefix
safe_redact_prefix-Uncut patterns accepts text hold a =
    let spans = match_spans (patterns.found text) in
    let b = length text - hold in
    let boundary = snap (uncut spans b) text in
    elim (Bool-cases (leb (length text) hold || boundary == 0)) [
      | inl e ↦ rw e (Uncut-zero (patterns.found text), inl refl, inl refl)
      | inr e ↦
          let kept : boundary + hold ≤ length text =
            ground (arith, e, snap_le (uncut spans b) text, uncut_le spans b) in
          rw e (
            cut_found text b (patterns.found text) a,
            inr kept,
            snap-starts_at (uncut spans b) text,
          )
    ]
