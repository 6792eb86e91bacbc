-- ===== src/Admission/Inspection/Examples.antt =====
-- sync.go: a mail address is masked before a classifier and a redactor see the body, for the fallback model.
use gatew_ai.Base.{◌≡◌, refl, true, some, String, str_eq, List, [], ◌∷◌, if◌then◌else◌}
use gatew_ai.Base.Int.{◌+ℤ◌}
use gatew_ai.Redis.Memory.{memory, empty}
use gatew_ai.RateLimit.Examples.{minute, reachable}
use gatew_ai.Breaker.{is_open}
use gatew_ai.Semaphore.{both_reach, shared_key, acquire_script, try_acquire}
use gatew_ai.Guardrails.{
  Finding, findings, rewritten, Detector, scanned, items, kept, fired, fired_only, set_at, received,
  redacts, after_redact, redact_step, evaluate_sync, evaluate_redact,
}
use gatew_ai.Guardrails.Examples.{second_first, same}
use gatew_ai.Registry.Configs.{Def, is_restricted}
use gatew_ai.Registry.Maps.{lookup}
use gatew_ai.Registry.Routes.{route_sync}
use gatew_ai.Admission.{served, fallen_back, model_visible, check_access, handle_json}
use gatew_ai.Admission.Examples.{small, handler, asks, glob}
use gatew_ai.Admission.Inspection.{
  InputStage, PiiChecker, violation, regex_checked, judged, any_failed, models_checked, inspect,
  sent, serve_llm, serve_json,
}
use gatew_ai.Admission.Inspection.Clearing.{IsCleared}
use gatew_ai.Admission.Inspection.Sending.{sent-handle_json}

abbrev masks_mail : PiiChecker
masks_mail = record {
  scan = λ body checks. if str_eq body "mail" then "email" ∷ [] else [];
  redact =
      λ body checks. if str_eq body "mail" then ("[REDACTED_EMAIL]", "email" ∷ []) else (body, []);
}

abbrev odd : Finding
odd = record { category = "injection"; detector = "classifier"; score = 1; text = "" }

-- It finds an injection in one text only.
abbrev classifier : String → Detector
classifier bad = record {
  name = "classifier";
  scan = λ texts. elim texts [
    | [] ↦ findings []
    | t ∷ ts ↦ findings (if str_eq t bad then odd ∷ [] else [])
  ];
  redact = λ body. rewritten (if str_eq body "[REDACTED_EMAIL]" then "masked" else body) (odd ∷ []);
}

abbrev judges : String → InputStage
judges bad = record {
  enabled = true;
  checks = "pii" ∷ [];
  action = "redact";
  models =
      record { detector = classifier bad; mode = "sync"; action = "block" }
      ∷ record { detector = classifier bad; mode = "sync"; action = "redact" }
      ∷ [];
}

abbrev texts_of : String → List String
texts_of body = body ∷ []

-- The classifier judges the placeholder.
placeholder_judged :
    inspect texts_of second_first (some masks_mail) (judges "[REDACTED_EMAIL]") "mail"
    ≡ violation ("injection" ∷ [])
unfolding inspect regex_checked models_checked judged any_failed evaluate_sync evaluate_redact
    redact_step after_redact redacts kept items scanned received set_at fired_only fired
placeholder_judged = refl

abbrev answer : Def → String → memory.Store → String × memory.Store
answer d body s = (body, s)

masked_sent :
    (handle_json memory minute glob reachable both_reach handler
      (serve_json memory texts_of second_first
        (some masks_mail)
        (λ d. judges "mail")
        (some answer)
        answer
        "mail")
      0
      (asks "big")
      empty).0
    ≡ served small (sent "masked")
unfolding handle_json route_sync lookup model_visible is_restricted fallen_back is_open check_access
    try_acquire acquire_script shared_key ◌+ℤ◌ serve_json serve_llm inspect regex_checked
    models_checked judged any_failed evaluate_sync evaluate_redact redact_step after_redact redacts
    kept items scanned received set_at fired_only fired
masked_sent = refl

sent-handle_json_example :
    (out : String) × IsCleared texts_of (some masks_mail) (judges "mail") "mail" out
    × (t : memory.Store) × ((answer small out t).0 ≡ "masked")
sent-handle_json_example =
    sent-handle_json memory texts_of second_first same (some masks_mail) (λ d. judges "mail") answer
      answer "mail" minute glob reachable both_reach handler 0 (asks "big") small "masked" empty
      masked_sent refl refl
