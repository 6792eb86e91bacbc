-- ===== src/Jobs/Records/Terminal.antt =====
-- storage/redis.go: UpdateJobResult over the life of a job.
use text.Mathlib.TextLemmas.{append_cancel_left}
use gatew_ai.Base.{
  ℕ, ◌≡◌, ◌≢◌, refl, ap, ◌∙◌, true, false, Option, none, some, String, str_eq, eq_refl, ==-ne,
  ==-cases, List, [], ◌∷◌, arith, if◌then◌else◌, Option-cases, Bool-cases, inl, inr,
}
use gatew_ai.Server.{Server}
use gatew_ai.Jobs.{Job, Codec, JobTtl, is_terminal_status, ttl_for_status, job_key, queue_key}
use gatew_ai.Jobs.Records.{Outcome, patched, stored, updated, left_queue, update_job_result}

pub job_key-ne : (a b : String) → a ≢ b → job_key a ≢ job_key b
job_key-ne a b h e = h (append_cancel_left "job:" a b e)

-- What an update makes of a record.
abbrev pub settled : Job → Outcome → Job
settled j o = if is_terminal_status j.status then j else patched j o

-- The updates of one job among those of all, in their order.
abbrev pub outcomes_of : String → List (String × Outcome) → List Outcome
outcomes_of id [] = []
outcomes_of id ((i, o) ∷ rest) =
    if str_eq i id then o ∷ outcomes_of id rest else outcomes_of id rest

abbrev pub first_terminal : List Outcome → Option Outcome
first_terminal [] = none
first_terminal (o ∷ os) = if is_terminal_status o.status then some o else first_terminal os

module _ (server : Server) (codec : Codec) (ttls : JobTtl) where
  open server use {Store, view, set, zrem, view-set, view-zrem}
  open codec use {encode, decode, decode-encode}

  text-left_queue :
      (j : Job) (id : String) (s : Store)
      → (view (left_queue server codec j id s)).text ≡ (view s).text
  unfolding left_queue
  text-left_queue j id s = ground (arith, view-zrem (queue_key j.model) id s)

  text-updated :
      (id k : String) (o : Outcome) (ttl : ℕ) (j : Job) (s : Store)
      → is_terminal_status j.status ≡ false
      → (view (updated server codec id o ttl (some j) s).1).text k
        ≡ (if str_eq (job_key id) k then some (encode (patched j o)) else (view s).text k)
  unfolding updated
  text-updated id k o ttl j s h =
      let after = set (job_key id) (encode (patched j o)) ttl s in
      ground (
        arith,
        ap (λ (f : String → Option String). f k) (text-left_queue j id after),
        view-set (job_key id) (encode (patched j o)) ttl s,
      )

  -- The job's own update.
  pub stored_own :
      (id : String) (o : Outcome) (j : Job) (s : Store)
      → stored server codec id s ≡ some j
      → (stored server codec id (update_job_result server codec ttls id o s).1 ≡ some (settled j o))
        × ((update_job_result server codec ttls id o s).0 ≡ none)
  unfolding stored update_job_result
  stored_own id o j s h = elim (Option-cases ((view s).text (job_key id))) [
    | inl e ↦ ground (arith, e)
    | inr (t, e) ↦ elim (Bool-cases (is_terminal_status j.status)) [
      | inl over ↦ ground (arith, e, over, h)
      | inr open_job ↦ ground (
        arith,
        e,
        open_job,
        h,
        text-updated id (job_key id) o (ttl_for_status ttls o.status) j s open_job,
        eq_refl (job_key id),
        decode-encode (patched j o),
      )
    ]
  ]

  -- What a record reads depends on the texts of the store.
  pub stored_text :
      (id : String) (s t : Store)
      → (view s).text ≡ (view t).text
      → stored server codec id s ≡ stored server codec id t
  unfolding stored
  stored_text id s t h = ground (arith, h)

  view-update :
      (id : String) (o : Outcome) (ttl : ℕ) (d : Option Job) (s : Store)
      → ((view (updated server codec id o ttl d s).1).list ≡ (view s).list)
        × ((view (updated server codec id o ttl d s).1).counter ≡ (view s).counter)
  unfolding updated left_queue
  view-update id o ttl none s = (refl, refl)
  view-update id o ttl (some j) s =
      let after = set (job_key id) (encode (patched j o)) ttl s in
      ground (
        arith,
        view-set (job_key id) (encode (patched j o)) ttl s,
        view-zrem (queue_key j.model) id after,
      )

  -- An update leaves the lists and the counters alone.
  pub list-update :
      (id : String) (o : Outcome) (s : Store)
      → let after = (update_job_result server codec ttls id o s).1 in
        ((view after).list ≡ (view s).list) × ((view after).counter ≡ (view s).counter)
  unfolding update_job_result
  list-update id o s = elim (Option-cases ((view s).text (job_key id))) [
    | inl e ↦ ground (arith, e)
    | inr (t, e) ↦ ground (arith, e, view-update id o (ttl_for_status ttls o.status) (decode t) s)
  ]

  -- An update of an unfinished job takes it out of the sorted set of its model.
  pub score-update :
      (id : String) (o : Outcome) (j : Job) (s : Store)
      → stored server codec id s ≡ some j
      → is_terminal_status j.status ≡ false
      → str_eq j.model "" ≡ false
      → (view (update_job_result server codec ttls id o s).1).score (queue_key j.model) id ≡ none
  unfolding update_job_result updated left_queue stored
  score-update id o j s h u m = elim (Option-cases ((view s).text (job_key id))) [
    | inl e ↦ ground (arith, e, h)
    | inr (t, e) ↦
        let written = set (job_key id) (encode (patched j o)) (ttl_for_status ttls o.status) s in
        ground (
          arith,
          e,
          h,
          u,
          m,
          view-zrem (queue_key j.model) id written,
          eq_refl (queue_key j.model),
          eq_refl id,
        )
  ]

  -- The update of another job.
  text-update_ne :
      (id : String) (k : String) (o : Outcome) (s : Store)
      → job_key id ≢ k
      → (view (update_job_result server codec ttls id o s).1).text k ≡ (view s).text k
  unfolding update_job_result
  text-update_ne id k o s d = elim (Option-cases ((view s).text (job_key id))) [
    | inl e ↦ ground (arith, e)
    | inr (t, e) ↦ elim (Option-cases (decode t)) [
      | inl bad ↦ ground (arith, e, bad)
      | inr (j, good) ↦ elim (Bool-cases (is_terminal_status j.status)) [
        | inl over ↦ ground (arith, e, over, good)
        | inr open_job ↦ ground (
          arith,
          e,
          good,
          open_job,
          text-updated id k o (ttl_for_status ttls o.status) j s open_job,
          ==-ne (job_key id) k d,
        )
      ]
    ]
  ]

  stored_other :
      (id i : String) (o : Outcome) (s : Store)
      → id ≢ i
      → stored server codec i (update_job_result server codec ttls id o s).1
        ≡ stored server codec i s
  unfolding stored
  stored_other id i o s d = rw (text-update_ne id (job_key i) o s (job_key-ne id i d))

  -- The updates of any jobs, one after the other.
  pub run : List (String × Outcome) → Store → Store
  run [] s = s
  run ((id, o) ∷ rest) s = run rest (update_job_result server codec ttls id o s).1

  final_record :
      (id : String) (rest : List (String × Outcome)) (j : Job) (s : Store)
      → stored server codec id s ≡ some j
      → is_terminal_status j.status ≡ true
      → stored server codec id (run rest s) ≡ some j
  unfolding run
  final_record id [] j s h t = h
  final_record id ((i, o) ∷ rest) j s h t = elim (==-cases i id) [
    | inl (same, test) ↦
        final_record id rest j _ (rw same ((stored_own id o j s h).0 ∙ ground arith)) t
    | inr (other, test) ↦ final_record id rest j _ (stored_other i id o s other ∙ h) t
  ]

  -- Of all the results that are reported for an unfinished job, among those of other jobs and in any
  -- number, the first terminal one is final: the record keeps its status, result, error and time.
  pub stored-first_terminal :
      (id : String) (rest : List (String × Outcome)) (j : Job) (s : Store) (o : Outcome)
      → stored server codec id s ≡ some j
      → is_terminal_status j.status ≡ false
      → first_terminal (outcomes_of id rest) ≡ some o
      → stored server codec id (run rest s) ≡ some (patched j o)
  unfolding run
  stored-first_terminal id [] j s o h u f = cc
  stored-first_terminal id ((i, p) ∷ rest) j s o h u f = elim (==-cases i id) [
    | inr (other, test) ↦
        stored-first_terminal id rest j _ o (stored_other i id p s other ∙ h) u (rw test at f)
    | inl (same, test) ↦
        let own : stored server codec id (update_job_result server codec ttls i p s).1
            ≡ some (patched j p) =
          rw same ((stored_own id p j s h).0 ∙ ground arith) in
        let f' = rw test at f in
        elim (Bool-cases (is_terminal_status p.status)) [
          | inl over ↦ final_record id rest (patched j p) _ own over ∙ ground arith
          | inr open_job ↦
              stored-first_terminal id rest (patched j p) _ o own open_job (rw open_job at f')
        ]
  ]
