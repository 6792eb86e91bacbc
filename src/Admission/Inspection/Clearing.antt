-- ===== src/Admission/Inspection/Clearing.antt =====
-- sync.go: what a language model is sent was cleared by its guardrails.
use mathlib.Core.List.{Permᴰ}
use gatew_ai.Base.{
  ◌≡◌, refl, sym, ap, subst, ◌∙◌, true, false, Option, none, some, String, str_eq, List, [], ◌∷◌,
  map, All, arith, Bool-cases, Option-cases, inl, inr,
}
use gatew_ai.Guardrails.{
  Finding, Scanned, findings, failure, Redacted, rewritten, unredacted, Enforcement, Item, no_items,
  fired, scanned, kept, fired_only, acts_inline, redacts, after_redact, redact_step, evaluate_sync,
  evaluate_redact,
}
use gatew_ai.Guardrails.Arrival.{evaluate_sync-fired_only}
use gatew_ai.Admission.Inspection.{
  InputStage, PiiChecker, Inspected, violation, cleared, regex_checked, judged, any_failed,
  models_checked, inspect,
}

nothing {ℓ} : {A : Type ℓ} → (xs : List A) → no_items xs ≡ true → xs ≡ []
nothing [] h = refl
nothing (x ∷ xs) h = cc

-- What the regular expressions let through: with `redact` the body or what it was rewritten to, else
-- the body as it came, in which nothing was found unless the action is `flag`.
pub data Vetted (pii : Option PiiChecker) (stage : InputStage) (raw : String)
    : String → Type 0 where
  no_checker : pii ≡ none → Vetted pii stage raw raw
  no_checks : stage.checks ≡ [] → Vetted pii stage raw raw
  untouched :
      (c : PiiChecker)
      → pii ≡ some c
      → str_eq stage.action "redact" ≡ true
      → (c.redact raw stage.checks).1 ≡ []
      → Vetted pii stage raw raw
  masked :
      (c : PiiChecker)
      → pii ≡ some c
      → str_eq stage.action "redact" ≡ true
      → Vetted pii stage raw (c.redact raw stage.checks).0
  flagged : str_eq stage.action "flag" ≡ true → Vetted pii stage raw raw
  innocent :
      (c : PiiChecker) → pii ≡ some c → c.scan raw stage.checks ≡ [] → Vetted pii stage raw raw

regex_checked-Vetted :
    (pii : Option PiiChecker) (stage : InputStage) (raw body : String)
    → regex_checked pii stage raw ≡ cleared body
    → Vetted pii stage raw body
unfolding regex_checked
regex_checked-Vetted none stage raw body h =
    subst (Vetted none stage raw) (ground (arith, h)) (Vetted.no_checker refl)
regex_checked-Vetted (some c) stage raw body h =
    let (cleaned, found) = c.redact raw stage.checks in
    let matched = c.scan raw stage.checks in
    elim (Bool-cases (no_items stage.checks)) [
      | inl n ↦
          subst (Vetted (some c) stage raw) (ground (arith, h, n))
            (Vetted.no_checks (nothing stage.checks n))
      | inr n ↦ elim (Bool-cases (str_eq stage.action "redact")) [
        | inl e ↦ elim (Bool-cases (no_items found)) [
          | inl f ↦
              subst (Vetted (some c) stage raw) (ground (arith, n, h, e, f))
                (Vetted.untouched c refl e (nothing found f))
          | inr f ↦
              subst (Vetted (some c) stage raw) (ground (arith, n, h, e, f))
                (Vetted.masked c refl e)
        ]
        | inr e ↦ elim (Bool-cases (str_eq stage.action "flag")) [
          | inl f ↦
              subst (Vetted (some c) stage raw) (ground (arith, n, h, e, f)) (Vetted.flagged f)
          | inr f ↦ elim (Bool-cases (no_items matched)) [
            | inl g ↦
                subst (Vetted (some c) stage raw) (ground (arith, n, h, e, f, g))
                  (Vetted.innocent c refl (nothing matched g))
            | inr g ↦ ground (arith, n, h, e, f, g)
          ]
        ]
      ]
    ]

-- A detector that judges at once answers, and finds nothing if it blocks.
abbrev pub IsInnocent : List String → Enforcement → Type 0
IsInnocent texts m =
    acts_inline m ≡ true
    → (fs : List Finding) × (m.detector.scan texts ≡ findings fs)
      × (str_eq m.action "block" ≡ true → fs ≡ [])

-- No result of the detectors that judge at once blocks.
abbrev IsLetBy : List String → List Enforcement → Type 0
IsLetBy texts ms = judged (fired_only (map (scanned texts) (kept acts_inline ms))) ≡ none

first_innocent :
    (texts : List String) (m : Enforcement) (ms : List Enforcement)
    → IsLetBy texts (m ∷ ms)
    → IsInnocent texts m × IsLetBy texts ms
unfolding judged fired_only kept scanned fired
first_innocent texts m ms h = elim (Bool-cases (acts_inline m)) [
  | inr e ↦ ((λ t. ground (arith, e, t)), ground (arith, e, h))
  | inl e ↦ go (m.detector.scan texts) refl e
]
  where
    go :
        (x : Scanned)
        → m.detector.scan texts ≡ x
        → acts_inline m ≡ true
        → IsInnocent texts m × IsLetBy texts ms
    go (failure x) f e = ground (arith, h, f, e)
    go (findings []) f e = ((λ t. ([], f, λ u. refl)), ground (arith, h, f, e))
    go (findings (y ∷ ys)) f e = elim (Bool-cases (str_eq m.action "block")) [
      | inl g ↦ ground (arith, h, f, e, g)
      | inr g ↦ ((λ t. (y ∷ ys, f, λ u. ground (arith, g, u))), ground (arith, h, f, e, g))
    ]

judged-IsInnocent :
    (texts : List String) (ms : List Enforcement) → IsLetBy texts ms → All (IsInnocent texts) ms
judged-IsInnocent texts [] h = tt
judged-IsInnocent texts (m ∷ ms) h =
    let (here, later) = first_innocent texts m ms h in (here, judged-IsInnocent texts ms later)

-- The redactors in the order of the configuration, each at work on the body of the one before it.
pub data Rewritten : List Enforcement → String → String → Type 0 where
  finished : {body : String} → Rewritten [] body body
  skipped :
      {m : Enforcement} {ms : List Enforcement} {body out : String}
      → redacts m ≡ false
      → Rewritten ms body out
      → Rewritten (m ∷ ms) body out
  clean :
      {m : Enforcement} {ms : List Enforcement} {body out : String} (same : String)
      → m.detector.redact body ≡ rewritten same []
      → Rewritten ms body out
      → Rewritten (m ∷ ms) body out
  changed :
      {m : Enforcement} {ms : List Enforcement} {body next out : String} (f : Finding)
      (fs : List Finding)
      → m.detector.redact body ≡ rewritten next (f ∷ fs)
      → Rewritten ms next out
      → Rewritten (m ∷ ms) body out

-- What the first enforcement makes of a body, if no redactor fails.
abbrev IsStep : Enforcement → List Enforcement → String → Type 0
IsStep m ms body =
    (next : String) × (any_failed (evaluate_redact ms next).1 ≡ false)
    × ((evaluate_redact ms next).0 ≡ (evaluate_redact (m ∷ ms) body).0)
    × ((out : String) → Rewritten ms next out → Rewritten (m ∷ ms) body out)

first_redacted :
    (m : Enforcement) (ms : List Enforcement) (body : String)
    → any_failed (evaluate_redact (m ∷ ms) body).1 ≡ false
    → IsStep m ms body
unfolding evaluate_redact any_failed redact_step after_redact
first_redacted m ms body h = elim (Bool-cases (redacts m)) [
  | inr e ↦ (body, ground (arith, e, h), ground (arith, e), λ out. Rewritten.skipped e)
  | inl e ↦ go (m.detector.redact body) refl e
]
  where
    go : (x : Redacted) → m.detector.redact body ≡ x → redacts m ≡ true → IsStep m ms body
    go (unredacted x) f e = ground (arith, h, f, e)
    go (rewritten same []) f e =
        (body, ground (arith, e, f, h), ground (arith, e, f), λ out. Rewritten.clean same f)
    go (rewritten next (y ∷ ys)) f e =
        (next, ground (arith, e, f, h), ground (arith, e, f), λ out. Rewritten.changed y ys f)

evaluate_redact-Rewritten :
    (ms : List Enforcement) (body : String)
    → any_failed (evaluate_redact ms body).1 ≡ false
    → Rewritten ms body (evaluate_redact ms body).0
unfolding evaluate_redact
evaluate_redact-Rewritten [] body h = Rewritten.finished
evaluate_redact-Rewritten (m ∷ ms) body h =
    let (next, works, same, add) = first_redacted m ms body h in
    subst (Rewritten (m ∷ ms) body) same (add _ (evaluate_redact-Rewritten ms next works))

-- A body was cleared by a stage: by the regular expressions, by the detectors that judge what those let
-- through, if it has texts, and by the redactors, that made what is sent of it.
pub record IsCleared (texts_of : String → List String) (pii : Option PiiChecker)
    (stage : InputStage) (raw out : String) : Type 0 where
  body : String
  vetted : Vetted pii stage raw body
  judged : no_items (texts_of body) ≡ false → All (IsInnocent (texts_of body)) stage.models
  redacted : Rewritten stage.models body out

module _ (texts_of : String → List String) (delivered : List Item → List Item)
    (same_items : (xs : List Item) → Permᴰ xs (delivered xs)) where
  models_checked-Rewritten :
      (stage : InputStage) (body out : String)
      → models_checked texts_of delivered stage body ≡ cleared out
      → (no_items (texts_of body) ≡ false → All (IsInnocent (texts_of body)) stage.models)
        × Rewritten stage.models body out
  unfolding models_checked
  models_checked-Rewritten stage body out h =
      let ms = stage.models in
      let results = (evaluate_redact ms body).1 in
      let rewrites = evaluate_redact-Rewritten ms body in
      let ordered = evaluate_sync-fired_only delivered same_items ms (texts_of body) in
      elim (Bool-cases (no_items ms)) [
        | inl n ↦ (
          (λ t. subst (All (IsInnocent (texts_of body))) (sym (nothing ms n)) tt),
          subst (Rewritten ms body) (ground (arith, n, h))
              (subst (λ xs. Rewritten xs body body) (sym (nothing ms n)) Rewritten.finished),
        )
        | inr n ↦ elim (Option-cases (judged (evaluate_sync delivered ms (texts_of body)))) [
          | inr (x, e) ↦ ground (arith, n, h, e)
          | inl e ↦ elim (Bool-cases (any_failed results)) [
            | inl f ↦ ground (arith, n, h, e, f)
            | inr f ↦ (
              (λ t.
                  judged-IsInnocent (texts_of body) ms (ap judged (sym (ordered ∙ rw t refl)) ∙ e)),
              subst (Rewritten ms body) (ground (arith, n, h, e, f)) (rewrites f),
            )
          ]
        ]
      ]

  pub inspect-IsCleared :
      (pii : Option PiiChecker) (stage : InputStage) (raw out : String)
      → inspect texts_of delivered pii stage raw ≡ cleared out
      → IsCleared texts_of pii stage raw out
  unfolding inspect
  inspect-IsCleared pii stage raw out h = go (regex_checked pii stage raw) refl
    where
      go : (x : Inspected) → regex_checked pii stage raw ≡ x → IsCleared texts_of pii stage raw out
      go (violation reasons) e = ground (arith, h, e)
      go (cleared body) e =
          let (let_by, made) = models_checked-Rewritten stage body out (ground (arith, h, e)) in
          record {
            body = body;
            vetted = regex_checked-Vetted pii stage raw body e;
            judged = let_by;
            redacted = made;
          }
