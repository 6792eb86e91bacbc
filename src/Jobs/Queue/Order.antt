-- ===== src/Jobs/Queue/Order.antt =====
-- storage/redis.go: the order in which the relay receives saved jobs.
use text.Mathlib.TextLemmas.{append_cancel_left}
use mathlib.Core.List.{append-nil, append_assoc}
use gatew_ai.Base.{
  ℕ, zero, suc, ◌≡◌, ◌≢◌, refl, sym, ap, ◌∙◌, true, false, Option, some, String, eq_iff, eq_refl,
  ==-ne, List, [], ◌∷◌, ◌++◌, map, length, All, arith,
}
use gatew_ai.Server.{Server}
use gatew_ai.Jobs.{Job, Codec, JobTtl, pending_key, processing_key}
use gatew_ai.Jobs.Records.{save_job}
use gatew_ai.Jobs.Records.Saving.{get_job-save_job}
use gatew_ai.Jobs.Queue.{pop_job}

pub processing_key-ne : (model : String) → processing_key model ≢ pending_key model
processing_key-ne model e =
    let bad = append_cancel_left model _ _ (append_cancel_left "relay:" _ _ e) in
    ground (arith, eq_iff ":processing" ":pending")

module _ (server : Server) (codec : Codec) (ttls : JobTtl) (marker_ttl : ℕ) (model : String) where
  open server use {Store, view, moved-lmove, view-lmove}

  abbrev pending_of : Store → List String
  pending_of s = (view s).list (pending_key model)

  -- The ids that a number of relays receive, one after the other.
  pub received : ℕ → Store → List (Option String)
  received zero s = []
  received (suc n) s = let (id, after) = pop_job server model s in id ∷ received n after

  pub save_all : List Job → Store → Store
  save_all [] s = s
  save_all (j ∷ js) s = save_all js (save_job server codec ttls marker_ttl j s)

  -- A job of the model that has no priority.
  abbrev pub IsOrdinary : Job → Type 0
  IsOrdinary j = (j.model ≡ model) × (j.priority ≡ false)

  pending-pop :
      (s : Store) (x : String) (xs : List String)
      → pending_of s ≡ x ∷ xs
      → ((pop_job server model s).0 ≡ some x) × (pending_of (pop_job server model s).1 ≡ xs)
  unfolding pop_job
  pending-pop s x xs h = ground (
    arith,
    moved-lmove (pending_key model) (processing_key model) s,
    view-lmove (pending_key model) (processing_key model) s,
    eq_refl (pending_key model),
    ==-ne (processing_key model) (pending_key model) (processing_key-ne model),
  )

  received_all :
      (xs : List String) (s : Store) → pending_of s ≡ xs → received (length xs) s ≡ map some xs
  unfolding received
  received_all [] s h = refl
  received_all (x ∷ xs) s h =
      let (popped, rest) = pending-pop s x xs h in ground (arith, popped, received_all xs _ rest)

  pending-save_all :
      (js : List Job) (s : Store)
      → All IsOrdinary js
      → pending_of (save_all js s) ≡ pending_of s ++ map (λ j. j.id) js
  unfolding save_all
  pending-save_all [] s o = sym (append-nil (pending_of s))
  pending-save_all (j ∷ js) s o =
      let saved = (get_job-save_job server codec ttls marker_ttl j s).1 in
      pending-save_all js (save_job server codec ttls marker_ttl j s) o.1
      ∙ ground (arith, saved, o.0, append_assoc (pending_of s) (j.id ∷ []) (map (λ j. j.id) js))

  length-ids : (js : List Job) → length (map (λ (j : Job). j.id) js) ≡ length js
  length-ids [] = refl
  length-ids (j ∷ js) = ap suc (length-ids js)

  some-ids :
      (js : List Job) → map some (map (λ (j : Job). j.id) js) ≡ map (λ (j : Job). some j.id) js
  some-ids [] = refl
  some-ids (j ∷ js) = ap (λ xs. some j.id ∷ xs) (some-ids js)

  -- From an empty queue, relays receive the jobs of a model that have no priority in the order of their
  -- submission, but a job with priority that is saved after them before them all.
  pub received-save_all :
      (js : List Job) (urgent : Job) (s : Store)
      → pending_of s ≡ []
      → All IsOrdinary js
      → urgent.model ≡ model
      → urgent.priority ≡ true
      → received (suc (length js)) (save_job server codec ttls marker_ttl urgent (save_all js s))
        ≡ some urgent.id ∷ map (λ j. some j.id) js
  received-save_all js urgent s e o m p =
      let queued = save_all js s in
      let saved = (get_job-save_job server codec ttls marker_ttl urgent queued).1 in
      let waiting = pending-save_all js s o in
      let all =
        received_all (urgent.id ∷ map (λ j. j.id) js)
          (save_job server codec ttls marker_ttl urgent queued)
          (ground (arith, saved, waiting, m, p, e)) in
      rw (length-ids js, some-ids js) at all
