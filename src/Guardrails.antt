-- ===== src/Guardrails.antt =====
-- internal/guardrails/pipeline.go, on the interface of internal/guardrails/detector.go: the enforcements
-- that are evaluated at once and those that redact one after the other. What a detector answers is a
-- function of its input; the order in which the goroutines deliver is an argument. FireAsync is not
-- modelled.
pub mod Arrival
pub mod Redaction
pub mod Examples
use gatew_ai.Base.{
  ℕ, zero, suc, ◌≡◌, Bool, true, false, not, ◌&&◌, ◌||◌, Option, none, some, String, str_eq, List,
  [], ◌∷◌, ◌++◌, map, if◌then◌else◌,
}

pub record Finding : Type 0 where
  pub category : String
  pub detector : String
  pub score : ℕ  -- a float64, as its bits
  pub text : String

pub data Scanned : Type 0 where
  findings : List Finding → Scanned
  failure : String → Scanned

pub data Redacted : Type 0 where
  rewritten : String → List Finding → Redacted
  unredacted : String → Redacted

pub record Detector : Type 0 where
  pub name : String
  pub scan : List String → Scanned
  pub redact : String → Redacted

abbrev pub mode_sync : String
mode_sync = "sync"

abbrev pub action_redact : String
action_redact = "redact"

pub record Enforcement : Type 0 where
  pub detector : Detector
  pub mode : String
  pub action : String

pub record ModelResult : Type 0 where
  pub name : String
  pub action : String
  pub categories : List String
  pub error : Option String

abbrev pub is_none {ℓ} : {A : Type ℓ} → Option A → Bool
is_none none = true
is_none (some a) = false

abbrev pub no_items {ℓ} : {A : Type ℓ} → List A → Bool
no_items [] = true
no_items (x ∷ xs) = false

unfoldable pub fired : ModelResult → Bool
fired r = not (is_none r.error) || not (no_items r.categories)

abbrev pub categories_of : List Finding → List String
categories_of fs = map (λ f. f.category) fs

abbrev pub result_of : Enforcement → Scanned → ModelResult
result_of m (findings fs) = record {
  name = m.detector.name;
  action = m.action;
  categories = categories_of fs;
  error = none;
}
result_of m (failure e) = record {
  name = m.detector.name;
  action = m.action;
  categories = [];
  error = some e;
}

unfoldable pub scanned : List String → Enforcement → ModelResult
scanned texts m = result_of m (m.detector.scan texts)

unfoldable pub kept : (Enforcement → Bool) → List Enforcement → List Enforcement
kept p [] = []
kept p (m ∷ ms) = if p m then m ∷ kept p ms else kept p ms

unfoldable pub fired_only : List ModelResult → List ModelResult
fired_only [] = []
fired_only (r ∷ rs) = if fired r then r ∷ fired_only rs else fired_only rs

abbrev pub Item : Type 0
Item = ℕ × ModelResult

-- What the goroutines send: each enforcement's result with its index.
unfoldable pub items : List String → ℕ → List Enforcement → List Item
items texts i [] = []
items texts i (m ∷ ms) = (i, scanned texts m) ∷ items texts (suc i) ms

abbrev pub blank : ModelResult
blank = record { name = ""; action = ""; categories = []; error = none }

abbrev pub blanks : List Enforcement → List ModelResult
blanks ms = map (λ m. blank) ms

unfoldable pub set_at : ℕ → ModelResult → List ModelResult → List ModelResult
set_at i r [] = []
set_at zero r (x ∷ xs) = r ∷ xs
set_at (suc i) r (x ∷ xs) = x ∷ set_at i r xs

-- Each item is put where it belongs as it is received.
unfoldable pub received : List Item → List ModelResult → List ModelResult
received [] ordered = ordered
received ((i, r) ∷ rest) ordered = received rest (set_at i r ordered)

-- `sync`, without those that redact.
abbrev pub acts_inline : Enforcement → Bool
acts_inline m = str_eq m.mode mode_sync && not (str_eq m.action action_redact)

module _ (delivered : List Item → List Item) where
  unfoldable pub evaluate_all : List Enforcement → List String → List ModelResult
  evaluate_all models texts =
      if no_items models || no_items texts
      then []
      else fired_only (received (delivered (items texts 0 models)) (blanks models))

  unfoldable pub evaluate_sync : List Enforcement → List String → List ModelResult
  evaluate_sync models texts =
      let sync = kept acts_inline models in
      if no_items sync || no_items texts
      then []
      else fired_only (received (delivered (items texts 0 sync)) (blanks sync))

pub record RedactResult : Type 0 where
  pub name : String
  pub categories : List String
  pub error : Option String

unfoldable pub redacts : Enforcement → Bool
redacts m = str_eq m.mode mode_sync && str_eq m.action action_redact

unfoldable pub after_redact : Enforcement → String → Redacted → String × List RedactResult
after_redact m out (unredacted e) =
    (out, record { name = m.detector.name; categories = []; error = some e } ∷ [])
after_redact m out (rewritten cleaned []) = (out, [])
after_redact m out (rewritten cleaned (f ∷ fs)) = (
  cleaned,
  record { name = m.detector.name; categories = categories_of (f ∷ fs); error = none } ∷ [],
)

unfoldable pub redact_step : Enforcement → String → String × List RedactResult
redact_step m out = if redacts m then after_redact m out (m.detector.redact out) else (out, [])

-- Each detector works on the body that the one before it returned.
unfoldable pub evaluate_redact : List Enforcement → String → String × List RedactResult
evaluate_redact [] out = (out, [])
evaluate_redact (m ∷ ms) out =
    let (cleaned, results) = redact_step m out in
    let (body, more) = evaluate_redact ms cleaned in (body, results ++ more)
