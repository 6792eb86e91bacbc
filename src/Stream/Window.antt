-- ===== src/Stream/Window.antt =====
-- stream_guard.go: what the released prefix and the held window are of a text.
use gatew_ai.Base.{
  ℕ, zero, suc, ◌-◌, ◌≤◌, ◌≡◌, refl, ap, sym, ◌∙◌, ◌⊎◌, inl, true, List, [], ◌∷◌, ◌++◌, length,
  arith,
}
use mathlib.Core.List.{append_assoc}
use gatew_ai.Stream.{
  Bytes, take, drop, starts_at, snap, Sent, content, forwarded, blocked, done_marker,
}

pub take-drop : (n : ℕ) (s : Bytes) → take n s ++ drop n s ≡ s
unfolding take drop
take-drop zero s = refl
take-drop (suc n) [] = refl
take-drop (suc n) (b ∷ s) = ap (λ t. b ∷ t) (take-drop n s)

pub length-drop : (n : ℕ) (s : Bytes) → length (drop n s) ≡ length s - n
unfolding drop
length-drop zero s = omega arith
length-drop (suc n) [] = omega arith
length-drop (suc n) (b ∷ s) = omega (arith, length-drop n s)

pub snap_le : (n : ℕ) (s : Bytes) → snap n s ≤ n
unfolding snap
snap_le zero s = omega arith
snap_le (suc n) s = ground (arith, snap_le n s)

pub snap-starts_at : (n : ℕ) (s : Bytes) → (snap n s ≡ 0) ⊎ (starts_at (snap n s) s ≡ true)
unfolding snap
snap-starts_at zero s = inl refl
snap-starts_at (suc n) s = ground (arith, snap-starts_at n s)

-- Two ways to cut one text, the first cut of which is not before the second.
pub cut_before :
    (xs ys us vs : Bytes)
    → xs ++ ys ≡ us ++ vs
    → length us ≤ length xs
    → (t : Bytes) × (xs ≡ us ++ t) × (vs ≡ t ++ ys)
cut_before xs ys [] vs e l = (xs, refl, sym e)
cut_before [] ys (u ∷ us) vs e l = absurd (omega (arith, l))
cut_before (x ∷ xs) ys (u ∷ us) vs e l =
    let (t, p, q) = cut_before xs ys us vs (ground (arith, e)) (omega (arith, l)) in
    (t, ground (arith, e, p), q)

-- The content among what was sent.
unfoldable pub contents : List Sent → Bytes
contents [] = []
contents (content s ∷ rest) = s ++ contents rest
contents (forwarded raw ∷ rest) = contents rest
contents (blocked ∷ rest) = contents rest
contents (done_marker ∷ rest) = contents rest

pub contents-append : (xs ys : List Sent) → contents (xs ++ ys) ≡ contents xs ++ contents ys
unfolding contents
contents-append [] ys = refl
contents-append (content s ∷ xs) ys =
    ap (λ t. s ++ t) (contents-append xs ys) ∙ sym (append_assoc s (contents xs) (contents ys))
contents-append (forwarded raw ∷ xs) ys = contents-append xs ys
contents-append (blocked ∷ xs) ys = contents-append xs ys
contents-append (done_marker ∷ xs) ys = contents-append xs ys

pub starts_at-length : (s : Bytes) → starts_at (length s) s ≡ true
unfolding starts_at
starts_at-length [] = refl
starts_at-length (b ∷ s) = starts_at-length s

pub snap-length : (s : Bytes) → snap (length s) s ≡ length s
unfolding snap
snap-length [] = refl
snap-length (b ∷ s) = ground (arith, starts_at-length (b ∷ s))

pub drop-length : (s : Bytes) → drop (length s) s ≡ []
unfolding drop
drop-length [] = refl
drop-length (b ∷ s) = drop-length s
