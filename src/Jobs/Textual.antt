-- ===== src/Jobs/Textual.antt =====
-- A text form of a job's record: the assumptions on the JSON form can hold, and examples can run.
use Prim.Native.Char.{Char, code, nul, char}
use Prim.Native.String.{[] as end, ◌∷◌ as ◌then◌}
use gatew_ai.Base.{
  ℕ, zero, suc, ◌≡◌, refl, ap, ◌∙◌, Bool, true, false, Option, none, some, String, ◌==◌, List, [],
  ◌∷◌, if◌then◌else◌,
}
use gatew_ai.Jobs.{
  Job, JobStatus, pending, processing, completed, failed, cancelled, expired, Codec,
}

abbrev pub stop : Char
stop = char 1 tt

-- A text of fields, each character behind a mark and each field before a stop.
abbrev pub quote : String → String → String
quote end rest = stop then rest
quote (c then s) rest = nul then (c then quote s rest)

abbrev pub pack : List String → String
pack [] = end
pack (s ∷ ss) = quote s (pack ss)

abbrev pub in_front : Char → List String → List String
in_front c [] = []
in_front c (s ∷ ss) = (c then s) ∷ ss

abbrev pub split : String → List String
split end = []
split (m then end) = end ∷ []
split (m then (c then r)) =
    let more = in_front c (split r) in
    let fields = split (c then r) in if code m == 0 then more else end ∷ fields

split-quote : (s rest : String) → split (quote s rest) ≡ s ∷ split rest
split-quote end end = refl
split-quote end (c then r) = refl
split-quote (c then s) rest = ap (in_front c) (split-quote s rest)

pub split-pack : (ss : List String) → split (pack ss) ≡ ss
split-pack [] = refl
split-pack (s ∷ ss) = split-quote s (pack ss) ∙ ap (λ xs. s ∷ xs) (split-pack ss)

abbrev pub unary : ℕ → String
unary zero = end
unary (suc n) = nul then unary n

abbrev pub size : String → ℕ
size end = 0
size (c then s) = suc (size s)

pub size-unary : (n : ℕ) → size (unary n) ≡ n
size-unary zero = refl
size-unary (suc n) = ap suc (size-unary n)

abbrev rank : JobStatus → String
rank pending = ""
rank processing = "1"
rank completed = "11"
rank failed = "111"
rank cancelled = "1111"
rank expired = "11111"

abbrev status_at : ℕ → JobStatus
status_at zero = pending
status_at (suc zero) = processing
status_at (suc (suc zero)) = completed
status_at (suc (suc (suc zero))) = failed
status_at (suc (suc (suc (suc zero)))) = cancelled
status_at n = expired

status_at-rank : (st : JobStatus) → status_at (size (rank st)) ≡ st
status_at-rank pending = refl
status_at-rank processing = refl
status_at-rank completed = refl
status_at-rank failed = refl
status_at-rank cancelled = refl
status_at-rank expired = refl

abbrev flattened : List (String × String) → List String
flattened [] = []
flattened ((k, v) ∷ ps) = k ∷ v ∷ flattened ps

abbrev pairs : List String → List (String × String)
pairs [] = []
pairs (k ∷ []) = []
pairs (k ∷ v ∷ ss) = (k, v) ∷ pairs ss

pairs-flattened : (ps : List (String × String)) → pairs (flattened ps) ≡ ps
pairs-flattened [] = refl
pairs-flattened ((k, v) ∷ ps) = ap (λ xs. (k, v) ∷ xs) (pairs-flattened ps)

abbrev flag : Bool → String
flag true = "1"
flag false = ""

abbrev is_set : String → Bool
is_set end = false
is_set (c then s) = true

is_set-flag : (b : Bool) → is_set (flag b) ≡ b
is_set-flag true = refl
is_set-flag false = refl

abbrev fields : Job → List String
fields j =
    j.id
    ∷ j.service_type
    ∷ j.model
    ∷ rank j.status
    ∷ j.input_ref
    ∷ j.result_ref
    ∷ j.callback_url
    ∷ j.inference_url
    ∷ j.consumer_name
    ∷ j.user_type
    ∷ flag j.priority
    ∷ j.error
    ∷ unary j.processing_time
    ∷ unary j.prompt_tokens
    ∷ unary j.completion_tokens
    ∷ unary j.created_at
    ∷ j.updated_at
    ∷ j.trace_context
    ∷ flattened j.params

abbrev job_of : List String → Option Job
job_of (a ∷ b ∷ c ∷ d ∷ e ∷ f ∷ g ∷ h ∷ i ∷ j ∷ k ∷ l ∷ m ∷ n ∷ o ∷ p ∷ q ∷ r ∷ ps) = some (record {
  id = a;
  service_type = b;
  model = c;
  status = status_at (size d);
  input_ref = e;
  result_ref = f;
  callback_url = g;
  inference_url = h;
  params = pairs ps;
  consumer_name = i;
  user_type = j;
  priority = is_set k;
  error = l;
  processing_time = size m;
  prompt_tokens = size n;
  completion_tokens = size o;
  created_at = size p;
  updated_at = q;
  trace_context = r;
})
job_of ss = none

job_of-fields : (j : Job) → job_of (fields j) ≡ some j
job_of-fields j =
    rw
      (
        status_at-rank j.status,
        is_set-flag j.priority,
        size-unary j.processing_time,
        size-unary j.prompt_tokens,
        size-unary j.completion_tokens,
        size-unary j.created_at,
        pairs-flattened j.params,
      )
      refl

pub job_of-split : (j : Job) → job_of (split (pack (fields j))) ≡ some j
job_of-split j = ap job_of (split-pack (fields j)) ∙ job_of-fields j

abbrev pub textual : Codec
textual = record {
  encode = λ j. pack (fields j);
  decode = λ s. job_of (split s);
  decode-encode = job_of-split;
}
