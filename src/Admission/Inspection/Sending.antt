-- ===== src/Admission/Inspection/Sending.antt =====
-- sync.go: the whole way of a JSON request to the proxy of language models.
use mathlib.Core.List.{Permᴰ}
use gatew_ai.Semaphore.{SlotCalls}
use gatew_ai.Base.{ℕ, ◌≡◌, refl, Bool, true, Option, some, String, List, arith}
use gatew_ai.Base.Int.{ℤ}
use gatew_ai.Redis.{Redis}
use gatew_ai.Guardrails.{Item}
use gatew_ai.Registry.Configs.{Def}
use gatew_ai.Admission.{SyncHandler, HttpRequest, served, is_llm, handle_json}
use gatew_ai.Admission.Serving.{served-handle_json}
use gatew_ai.Admission.Inspection.{
  InputStage, PiiChecker, Inspected, violation, cleared, inspect, Sent, sent, serve_llm, serve_json,
}
use gatew_ai.Admission.Inspection.Clearing.{IsCleared, inspect-IsCleared}

module _ (redis : Redis) (texts_of : String → List String) (delivered : List Item → List Item)
    (same_items : (xs : List Item) → Permᴰ xs (delivered xs)) (pii : Option PiiChecker)
    (stage_of : Def → InputStage) {A : Type 0}
    (forward direct : Def → String → redis.Store → A × redis.Store) (raw : String) where
  open redis use {Store}

  abbrev serve : Def → Store → Sent A × Store
  serve = serve_json redis texts_of delivered pii stage_of (some forward) direct raw

  -- What the proxy of language models answered, it answered for a body that was cleared.
  abbrev IsAnswer : Def → A → Type 0
  IsAnswer e a =
      (out : String) × IsCleared texts_of pii (stage_of e) raw out
      × (t : Store) × ((forward e out t).0 ≡ a)

  sent-serve_json :
      (e : Def) (a : A) (t : Store)
      → is_llm e ≡ true
      → (stage_of e).enabled ≡ true
      → (serve e t).0 ≡ sent a
      → IsAnswer e a
  unfolding serve_json serve_llm
  sent-serve_json e a t llm on h = go (inspect texts_of delivered pii (stage_of e) raw) refl
    where
      go : (x : Inspected) → inspect texts_of delivered pii (stage_of e) raw ≡ x → IsAnswer e a
      go (violation reasons) f = ground (arith, llm, on, h, f)
      go (cleared out) f = (
        out,
        inspect-IsCleared texts_of delivered same_items pii (stage_of e) raw out f,
        t,
        ground (arith, llm, on, h, f),
      )

  -- Where a JSON request is served by the proxy of language models with an answer, and the guardrails on
  -- the input of the model that is served, which may be the fallback, are enabled, that answer is the one
  -- for a body that those guardrails cleared: the regular expressions let the body through or rewrote it,
  -- if there are texts in that body, each detector that judges at once answered on them, and found nothing
  -- if it blocks (without texts none is asked), and no redactor failed.
  -- This holds in whatever order the detectors answer.
  pub sent-handle_json :
      (parse_duration : String → Option ℤ) (glob : String → String → Option Bool)
      (up : String → Bool) (works : SlotCalls) (h : SyncHandler) (now : ℕ) (r : HttpRequest)
      (e : Def) (a : A) (s : Store)
      → (handle_json redis parse_duration glob up works h serve now r s).0 ≡ served e (sent a)
      → is_llm e ≡ true
      → (stage_of e).enabled ≡ true
      → IsAnswer e a
  sent-handle_json parse_duration glob up works h now r e a s q llm on =
      let (route, seen, permitted, (t, given)) =
        served-handle_json redis parse_duration glob up works h serve now r e (sent a) s q in
      sent-serve_json e a t llm on given
