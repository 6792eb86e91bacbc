-- ===== src/Webhooks/Backoff.antt =====
-- webhook_retry.go: the delay before an attempt.
use native.Mathlib.Nat.{one-le-pow}
use gatew_ai.Base.{ℕ, zero, suc, ◌*◌, ◌^◌, ◌≤◌, ◌≡◌, ap, ◌∙◌, Bool-cases, inl, inr, leb, min, arith}
use gatew_ai.Webhooks.{WebhookSender, doubled, backoff}

power_pos : (n : ℕ) → 1 ≤ 2 ^ n
power_pos n = one-le-pow n 2 (omega arith)

power_suc : (n d : ℕ) → d * 2 ^ suc n ≡ d * 2 * 2 ^ n
power_suc n d = grind arith

grown : (d m : ℕ) → 1 ≤ m → d ≤ d * m
grown d m l = grind (arith, l)

module _ (ws : WebhookSender) where
  doubled_lem : (n d : ℕ) → d ≤ ws.max_backoff → doubled ws n d ≡ min (d * 2 ^ n) ws.max_backoff
  unfolding doubled
  doubled_lem zero d l = ground (arith, l)
  doubled_lem (suc n) d l = elim (Bool-cases (leb ws.max_backoff (d * 2))) [
    | inl e ↦ ground (arith, e, power_suc n d, grown (d * 2) (2 ^ n) (power_pos n))
    | inr e ↦ ground (arith, e, power_suc n d, doubled_lem n (d * 2))
  ]

  -- If the base is not above the cap, the delay before attempt number n + 1 is the base doubled n times, or
  -- the cap if that is less.
  pub backoff_lem :
      (n : ℕ)
      → ws.base_backoff ≤ ws.max_backoff
      → backoff ws (suc n) ≡ min (ws.base_backoff * 2 ^ n) ws.max_backoff
  unfolding backoff
  backoff_lem n l =
      ap (λ k. doubled ws k ws.base_backoff) (omega arith) ∙ doubled_lem n ws.base_backoff l
