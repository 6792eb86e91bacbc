-- ===== src/Admission/Inspection.antt =====
-- internal/handler/sync.go: the branch of handleJSON for language models, with the guardrails on their input.
-- The regular expressions, the texts of a body and the order in which detectors answer are arguments,
-- as are the guardrails of each definition, the proxy of language models and the direct proxy. What is
-- only observed (flags, spans, shadow detectors) is left out.
pub mod Clearing
pub mod Sending
pub mod Examples
use gatew_ai.Base.{
  Bool, true, false, not, ◌&&◌, ◌||◌, Option, none, some, String, str_eq, List, [], ◌∷◌,
  if◌then◌else◌,
}
use gatew_ai.Redis.{Redis}
use gatew_ai.Guardrails.{
  Enforcement, ModelResult, RedactResult, Item, is_none, no_items, evaluate_sync, evaluate_redact,
}
use gatew_ai.Registry.Configs.{Def}
use gatew_ai.Admission.{is_llm}

pub record InputStage : Type 0 where
  pub enabled : Bool
  pub checks : List String
  pub action : String
  pub models : List Enforcement

-- The checker of regular expressions: the categories that it finds, and the body that it rewrites.
pub record PiiChecker : Type 0 where
  pub scan : String → List String → List String
  pub redact : String → List String → String × List String

-- The categories that are answered with 422, or the body that is sent on.
pub data Inspected : Type 0 where
  violation : List String → Inspected
  cleared : String → Inspected

-- An action that is none of the three blocks.
unfoldable pub regex_checked : Option PiiChecker → InputStage → String → Inspected
regex_checked none stage raw = cleared raw
regex_checked (some c) stage raw =
    let (cleaned, redacted) = c.redact raw stage.checks in
    let found = c.scan raw stage.checks in
    if no_items stage.checks
    then cleared raw
    else if str_eq stage.action "redact"
    then cleared (if no_items redacted then raw else cleaned)
    else if str_eq stage.action "flag"
    then cleared raw
    else if no_items found
    then cleared raw
    else violation found

-- The first result that blocks; a detector that fails does.
unfoldable pub judged : List ModelResult → Option (List String)
judged [] = none
judged (r ∷ rest) =
    let later = judged rest in
    if not (is_none r.error)
    then some ("detector unavailable" ∷ [])
    else if str_eq r.action "block"
    then some r.categories
    else later

unfoldable pub any_failed : List RedactResult → Bool
any_failed [] = false
any_failed (r ∷ rest) = not (is_none r.error) || any_failed rest

module _ (texts_of : String → List String) (delivered : List Item → List Item) where
  unfoldable pub models_checked : InputStage → String → Inspected
  models_checked stage raw =
      let (cleaned, results) = evaluate_redact stage.models raw in
      if no_items stage.models
      then cleared raw
      else elim (judged (evaluate_sync delivered stage.models (texts_of raw))) [
        | some reasons ↦ violation reasons
        | none ↦
            if any_failed results then violation ("redaction unavailable" ∷ []) else cleared cleaned
      ]

  unfoldable pub inspect : Option PiiChecker → InputStage → String → Inspected
  inspect pii stage raw = elim (regex_checked pii stage raw) [
    | violation reasons ↦ violation reasons
    | cleared body ↦ models_checked stage body
  ]

pub data Sent (A : Type 0) : Type 0 where
  rejected : List String → Sent A  -- 422
  sent : A → Sent A

module _ (redis : Redis) (texts_of : String → List String) (delivered : List Item → List Item)
    (pii : Option PiiChecker) (stage_of : Def → InputStage) {A : Type 0}
    (llm : Option (Def → String → redis.Store → A × redis.Store))
    (direct : Def → String → redis.Store → A × redis.Store) where
  open redis use {Store}

  -- The body goes to the proxy of language models only as it was inspected.
  unfoldable pub serve_llm :
      (Def → String → Store → A × Store) → String → Def → Store → Sent A × Store
  serve_llm forward raw d s =
      let stage = stage_of d in
      elim (if stage.enabled then inspect texts_of delivered pii stage raw else cleared raw) [
        | violation reasons ↦ (rejected reasons, s)
        | cleared body ↦ let (a, after) = forward d body s in (sent a, after)
      ]

  unfoldable pub serve_direct : String → Def → Store → Sent A × Store
  serve_direct raw d s = let (a, after) = direct d raw s in (sent a, after)

  -- What handleJSON serves a request with.
  unfoldable pub serve_json : String → Def → Store → Sent A × Store
  unfolding serve_llm serve_direct
  serve_json raw d s = elim llm [
    | none ↦ serve_direct raw d s
    | some forward ↦ if is_llm d then serve_llm forward raw d s else serve_direct raw d s
  ]
