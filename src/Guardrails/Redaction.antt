-- ===== src/Guardrails/Redaction.antt =====
-- pipeline.go: EvaluateRedact.
use gatew_ai.Base.{
  ◌≡◌, refl, sym, ap, ◌∙◌, ◌↔◌, true, Bool-cases, inl, inr, String, List, [], ◌∷◌, ◌++◌, All, arith,
}
use gatew_ai.Guardrails.{
  Enforcement, Redacted, rewritten, unredacted, RedactResult, redacts, after_redact, redact_step,
  evaluate_redact,
}

-- An enforcement has nothing to say of a body: it does not redact, or its detector works and finds nothing.
abbrev pub IsSilent : String → Enforcement → Type 0
IsSilent body m =
    redacts m ≡ true → (cleaned : String) × (m.detector.redact body ≡ rewritten cleaned [])

redact_step-IsSilent :
    (m : Enforcement) (body : String)
    → (redact_step m body).1 ≡ []
    → IsSilent body m × ((redact_step m body).0 ≡ body)
unfolding redact_step after_redact
redact_step-IsSilent m body h = elim (Bool-cases (redacts m)) [
  | inr e ↦ ((λ t. ground (arith, e, t)), ground (arith, e))
  | inl e ↦ go (m.detector.redact body) refl (rw e at h)
]
  where
    go :
        (d : Redacted)
        → m.detector.redact body ≡ d
        → (after_redact m body d).1 ≡ []
        → IsSilent body m × ((redact_step m body).0 ≡ body)
    go (unredacted x) e h = cc
    go (rewritten cleaned []) e h = ((λ t. (cleaned, e)), ground (arith, e))
    go (rewritten cleaned (f ∷ fs)) e h = cc

IsSilent-redact_step :
    (m : Enforcement) (body : String) → IsSilent body m → redact_step m body ≡ (body, [])
unfolding redact_step after_redact
IsSilent-redact_step m body h = elim (Bool-cases (redacts m)) [
  | inr e ↦ ground (arith, e)
  | inl e ↦ let (cleaned, c) = h e in ground (arith, e, c)
]

both_empty : {A : Type 0} (xs ys : List A) → xs ++ ys ≡ [] → (xs ≡ []) × (ys ≡ [])
both_empty [] ys h = (refl, h)
both_empty (x ∷ xs) ys h = cc

All-evaluate_redact :
    (ms : List Enforcement) (body : String)
    → All (IsSilent body) ms
    → evaluate_redact ms body ≡ (body, [])
unfolding evaluate_redact
All-evaluate_redact [] body a = refl
All-evaluate_redact (m ∷ ms) body a =
    ground (arith, IsSilent-redact_step m body a.0, All-evaluate_redact ms body a.1)

All-IsSilent :
    (ms : List Enforcement) (body : String)
    → (evaluate_redact ms body).1 ≡ []
    → All (IsSilent body) ms
unfolding evaluate_redact
All-IsSilent [] body h = tt
All-IsSilent (m ∷ ms) body h =
    let (cleaned, results) = redact_step m body in
    let (here, later) = both_empty results (evaluate_redact ms cleaned).1 h in
    let (silent, same) = redact_step-IsSilent m body here in
    (silent, All-IsSilent ms body (ap (λ b. (evaluate_redact ms b).1) (sym same) ∙ later))

-- Redaction reports nothing exactly when each enforcement that redacts works on the body as it came and
-- finds nothing in it, and then the body is passed on as it came.
pub evaluate_redact-IsSilent :
    (ms : List Enforcement) (body : String)
    → ((evaluate_redact ms body).1 ≡ [] ↔ All (IsSilent body) ms)
      × ((evaluate_redact ms body).1 ≡ [] → (evaluate_redact ms body).0 ≡ body)
evaluate_redact-IsSilent ms body = (
  (
    All-IsSilent ms body,
    λ a. ap (λ (x : String × List RedactResult). x.1) (All-evaluate_redact ms body a),
  ),
  λ h.
      ap (λ (x : String × List RedactResult). x.0)
        (All-evaluate_redact ms body (All-IsSilent ms body h)),
)
