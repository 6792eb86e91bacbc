-- ===== src/Guardrails/Arrival.antt =====
-- pipeline.go: the order in which the detectors answer.
use mathlib.Core.List.{Memᴰ, Permᴰ}
use gatew_ai.Base.{
  str_eq, ◌&&◌, not, ℕ, zero, suc, ◌+◌, ◌≡◌, refl, sym, ap, subst, ◌∙◌, ◌⊎◌, inl, inr, Option-cases,
  Option, none, some, String, List, [], ◌∷◌, map, length, All, arith, if◌then◌else◌,
}
use gatew_ai.Guardrails.{
  Enforcement, ModelResult, Item, scanned, items, blanks, set_at, received, fired_only,
  evaluate_all, evaluate_sync, no_items, kept, acts_inline,
}

abbrev at : ℕ → List ModelResult → Option ModelResult
at k [] = none
at zero (x ∷ xs) = some x
at (suc k) (x ∷ xs) = at k xs

at_ext : (xs ys : List ModelResult) → ((k : ℕ) → at k xs ≡ at k ys) → xs ≡ ys
at_ext [] [] h = refl
at_ext [] (y ∷ ys) h = ground (arith, h 0)
at_ext (x ∷ xs) [] h = ground (arith, h 0)
at_ext (x ∷ xs) (y ∷ ys) h = ground (arith, h 0, at_ext xs ys (λ k. h (suc k)))

-- An item agrees with the results that are expected.
abbrev Agrees : List ModelResult → Item → Type 0
Agrees target (i, r) = at i target ≡ some r

set_agrees :
    (i : ℕ) (r : ModelResult) (xs target : List ModelResult)
    → length xs ≡ length target
    → at i target ≡ some r
    → at i (set_at i r xs) ≡ some r
unfolding set_at
set_agrees i r [] [] l e = e
set_agrees i r [] (y ∷ ys) l e = ground (arith, l)
set_agrees i r (x ∷ xs) [] l e = ground (arith, l)
set_agrees zero r (x ∷ xs) (y ∷ ys) l e = refl
set_agrees (suc i) r (x ∷ xs) (y ∷ ys) l e = set_agrees i r xs ys (ground (arith, l)) e

set_other :
    (i k : ℕ) (r : ModelResult) (xs : List ModelResult) → (k ≡ i) ⊎ (at k (set_at i r xs) ≡ at k xs)
unfolding set_at
set_other i k r [] = inr refl
set_other zero zero r (x ∷ xs) = inl refl
set_other zero (suc k) r (x ∷ xs) = inr refl
set_other (suc i) zero r (x ∷ xs) = inr refl
set_other (suc i) (suc k) r (x ∷ xs) = elim (set_other i k r xs) [
  | inl e ↦ inl (ap suc e)
  | inr e ↦ inr e
]

length-set_at :
    (i : ℕ) (r : ModelResult) (xs : List ModelResult) → length (set_at i r xs) ≡ length xs
unfolding set_at
length-set_at i r [] = refl
length-set_at zero r (x ∷ xs) = refl
length-set_at (suc i) r (x ∷ xs) = ap suc (length-set_at i r xs)

-- The place of an index is filled, now or by an item that is still to come.
abbrev Filled : List ModelResult → ℕ → List Item → List ModelResult → Type 0
Filled target k rest xs = (at k xs ≡ at k target) ⊎ ((r : ModelResult) × Memᴰ (k, r) rest)

Filled-set_at :
    (target : List ModelResult) (k i : ℕ) (r : ModelResult) (rest : List Item)
    (xs : List ModelResult)
    → length xs ≡ length target
    → at i target ≡ some r
    → Filled target k ((i, r) ∷ rest) xs
    → Filled target k rest (set_at i r xs)
Filled-set_at target k i r rest xs l e (inl f) = elim (set_other i k r xs) [
  | inl same ↦ inl (
      ap (λ x. at x (set_at i r xs)) same
      ∙ set_agrees i r xs target l e
      ∙ sym e
      ∙ ap (λ x. at x target) (sym same))
  | inr other ↦ inl (other ∙ f)
]
Filled-set_at target k i r rest xs l e (inr (q, Memᴰ.head h)) =
    let same = ap (λ (x : Item). x.0) h in
    inl (
      ap (λ x. at x (set_at i r xs)) same
      ∙ set_agrees i r xs target l e
      ∙ sym e
      ∙ ap (λ x. at x target) (sym same))
Filled-set_at target k i r rest xs l e (inr (q, Memᴰ.tail m)) = inr (q, m)

received-Filled :
    (target : List ModelResult) (k : ℕ) (arrivals : List Item) (xs : List ModelResult)
    → length xs ≡ length target
    → All (Agrees target) arrivals
    → Filled target k arrivals xs
    → at k (received arrivals xs) ≡ at k target
unfolding received
received-Filled target k [] xs l a (inl f) = f
received-Filled target k [] xs l a (inr (r, m)) = elim m [ ]
received-Filled target k ((i, r) ∷ rest) xs l a f =
    received-Filled target k rest (set_at i r xs) (length-set_at i r xs ∙ l) a.1
      (Filled-set_at target k i r rest xs l a.0 f)

moved : (x : Item) (xs ys : List Item) → Permᴰ xs ys → Memᴰ x xs → Memᴰ x ys
moved x _ _ Permᴰ.nil m = m
moved x _ _ (Permᴰ.cons e p) (Memᴰ.head h) = Memᴰ.head (h ∙ e)
moved x _ _ (Permᴰ.cons e p) (Memᴰ.tail m) = Memᴰ.tail (moved x _ _ p m)
moved x _ _ (Permᴰ.swap e f) (Memᴰ.head h) = Memᴰ.tail (Memᴰ.head (h ∙ e))
moved x _ _ (Permᴰ.swap e f) (Memᴰ.tail (Memᴰ.head h)) = Memᴰ.head (h ∙ f)
moved x _ _ (Permᴰ.swap e f) (Memᴰ.tail (Memᴰ.tail m)) = Memᴰ.tail (Memᴰ.tail m)
moved x _ _ (Permᴰ.trans p q) m = moved x _ _ q (moved x _ _ p m)

back : {xs ys : List Item} → Permᴰ xs ys → Permᴰ ys xs
back Permᴰ.nil = Permᴰ.nil
back (Permᴰ.cons e p) = Permᴰ.cons (sym e) (back p)
back (Permᴰ.swap e f) = Permᴰ.swap (sym f) (sym e)
back (Permᴰ.trans p q) = Permᴰ.trans (back q) (back p)

All-pointwise : (P : Item → Type 0) (xs : List Item) → ((x : Item) → Memᴰ x xs → P x) → All P xs
All-pointwise P [] h = tt
All-pointwise P (x ∷ xs) h = (h x (Memᴰ.head refl), All-pointwise P xs (λ y m. h y (Memᴰ.tail m)))

-- An item is the result of the enforcement at its index, counted from `i`.
item_at :
    (texts : List String) (i : ℕ) (ms : List Enforcement) (x : Item)
    → Memᴰ x (items texts i ms)
    → (j : ℕ) × (x.0 ≡ i + j) × (at j (map (scanned texts) ms) ≡ some x.1)
unfolding items
item_at texts i [] x m = elim m [ ]
item_at texts i (a ∷ ms) x (Memᴰ.head h) =
    (0, ground (arith, ap (λ (y : Item). y.0) h), ap (λ (y : Item). some y.1) (sym h))
item_at texts i (a ∷ ms) x (Memᴰ.tail m) =
    let (j, e, f) = item_at texts (suc i) ms x m in (suc j, omega (arith, e), f)

item_of :
    (texts : List String) (i j : ℕ) (ms : List Enforcement) (r : ModelResult)
    → at j (map (scanned texts) ms) ≡ some r
    → Memᴰ (i + j, r) (items texts i ms)
unfolding items
item_of texts i j [] r e = cc
item_of texts i zero (m ∷ ms) r e = Memᴰ.head (ground (arith, e))
item_of texts i (suc j) (m ∷ ms) r e = Memᴰ.tail (
    subst (λ n. Memᴰ (n, r) (items texts (suc i) ms)) (omega arith)
      (item_of texts (suc i) j ms r e))

blank_at :
    (texts : List String) (k : ℕ) (ms : List Enforcement)
    → at k (map (scanned texts) ms) ≡ none
    → at k (blanks ms) ≡ none
blank_at texts k [] e = refl
blank_at texts zero (m ∷ ms) e = cc
blank_at texts (suc k) (m ∷ ms) e = blank_at texts k ms e

length-blanks :
    (texts : List String) (ms : List Enforcement)
    → length (blanks ms) ≡ length (map (scanned texts) ms)
length-blanks texts [] = refl
length-blanks texts (m ∷ ms) = ap suc (length-blanks texts ms)

module _ (delivered : List Item → List Item)
    (same_items : (xs : List Item) → Permᴰ xs (delivered xs)) where
  agrees :
      (texts : List String) (ms : List Enforcement)
      → All (Agrees (map (scanned texts) ms)) (delivered (items texts 0 ms))
  agrees texts ms = All-pointwise _ _ (λ x m.
      let (j, e, f) = item_at texts 0 ms x (moved x _ _ (back (same_items (items texts 0 ms))) m) in
      let index : x.0 ≡ j = omega (arith, e) in ap (λ k. at k (map (scanned texts) ms)) index ∙ f)

  filled :
      (texts : List String) (ms : List Enforcement) (k : ℕ)
      → Filled (map (scanned texts) ms) k (delivered (items texts 0 ms)) (blanks ms)
  filled texts ms k = elim (Option-cases (at k (map (scanned texts) ms))) [
    | inl e ↦ inl (blank_at texts k ms e ∙ sym e)
    | inr (r, e) ↦ inr (
      r,
      moved (k, r) _ _ (same_items (items texts 0 ms))
          (subst (λ n. Memᴰ (n, r) (items texts 0 ms)) (omega arith) (item_of texts 0 k ms r e)),
    )
  ]

  received-delivered :
      (texts : List String) (ms : List Enforcement)
      → received (delivered (items texts 0 ms)) (blanks ms) ≡ map (scanned texts) ms
  received-delivered texts ms = at_ext _ (map (scanned texts) ms) (λ k.
      received-Filled (map (scanned texts) ms) k (delivered (items texts 0 ms)) (blanks ms)
        (length-blanks texts ms) (agrees texts ms) (filled texts ms k))

  -- Whatever order the detectors answer in, the results are those of the enforcements that fired, in the
  -- order of the configuration; there are none for no texts.
  pub evaluate_all-fired_only :
      (models : List Enforcement) (texts : List String)
      → evaluate_all delivered models texts
        ≡ (if no_items texts then [] else fired_only (map (scanned texts) models))
  unfolding evaluate_all fired_only
  evaluate_all-fired_only [] texts = ground arith
  evaluate_all-fired_only (m ∷ ms) texts = ground (arith, received-delivered texts (m ∷ ms))

  -- The inline evaluation gives, whatever order the detectors answer in, the results that fired of the
  -- enforcements that are `sync` and do not redact, in the order of the configuration.
  pub evaluate_sync-fired_only :
      (models : List Enforcement) (texts : List String)
      → evaluate_sync delivered models texts ≡ (
          if no_items texts
          then []
          else fired_only (
              map
                (scanned texts)
                (kept (λ m. str_eq m.mode "sync" && not (str_eq m.action "redact")) models)))
  unfolding evaluate_sync evaluate_all
  evaluate_sync-fired_only models texts = evaluate_all-fired_only (kept acts_inline models) texts
