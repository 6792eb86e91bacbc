-- ===== src/Jobs/Submission/Replay.antt =====
-- jobs.go: submissions with one idempotency key, and the gate of an accepted job.
use gatew_ai.Base.{
  true, ◌&&◌, if◌then◌else◌, Option-cases, Bool-cases, inl, inr, ℕ, ◌≡◌, ◌≢◌, refl, ap, ◌∙◌, Option,
  none, some, String, eq_refl, ==-ne, arith,
}
use gatew_ai.Server.{Server}
use gatew_ai.Jobs.{Job, Codec, JobTtl, scan_gate_key, idempotency_key}
use gatew_ai.Jobs.Records.{Error, get_job}
use gatew_ai.Jobs.Records.Saving.{get_job-save_job, text-save_job}
use gatew_ai.Jobs.Claims.{reserve_idempotency_key, get_idempotency_key}
use gatew_ai.Jobs.Submission.{
  Gate, Calls, Submitted, accepted, replayed, conflict, set_scan_gate, saved, armed, original,
  submit,
}
use gatew_ai.Jobs.Submission.Saved.{job_idem, meta_idem, gate_idem}

-- What a client is told of the job that holds its key.
abbrev pub replay_of : Calls → Option Job × Option Error → Submitted
replay_of calls (found, error) =
    if calls.reads_key && calls.reads_job
    then elim error [
      | some e ↦ conflict
      | none ↦ elim found [ none ↦ conflict | some job ↦ replayed job ]
    ]
    else conflict

module _ (server : Server) (codec : Codec) (ttls : JobTtl) (marker_ttl idempotency_ttl : ℕ) where
  open server use {Store, view, set, del, set_nx, set_nx_lem, view-set, view-del}

  gate_kept :
      (id : String) (gate : Gate) (consumer key : String) (s : Store)
      → (view (set_scan_gate server codec ttls marker_ttl idempotency_ttl id gate s)).text
          (idempotency_key consumer key)
        ≡ (view s).text (idempotency_key consumer key)
  unfolding set_scan_gate
  gate_kept id gate consumer key s = rw view-set (
      rw (==-ne (scan_gate_key id) (idempotency_key consumer key) (gate_idem id consumer key)) refl)

  -- An armed job keeps the key that it reserved, and can be read.
  armed-accepted :
      (calls : Calls) (j : Job) (gate : Option Gate) (key : String) (s : Store)
      → calls.arms ≡ true
      → calls.saves ≡ true
      → let (out, after) = armed server codec ttls marker_ttl idempotency_ttl calls j gate key s in
        (out ≡ accepted j.id)
        × (get_job server codec j.id after ≡ (some j, none))
        × ((view after).text (idempotency_key j.consumer_name key)
            ≡ (view s).text (idempotency_key j.consumer_name key))
  unfolding armed saved set_scan_gate
  armed-accepted calls j none key s a b = rw b (
    refl,
    (get_job-save_job server codec ttls marker_ttl j s).0,
    text-save_job server codec ttls marker_ttl j s (idempotency_key j.consumer_name key)
        (job_idem j.id j.consumer_name key) (meta_idem j.id j.consumer_name key),
  )
  armed-accepted calls j (some gate) key s a b =
      let gated = set_scan_gate server codec ttls marker_ttl idempotency_ttl j.id gate s in
      rw (a, b)
        (
          refl,
          (get_job-save_job server codec ttls marker_ttl j gated).0,
          text-save_job server codec ttls marker_ttl j gated (idempotency_key j.consumer_name key)
                (job_idem j.id j.consumer_name key) (meta_idem j.id j.consumer_name key)
              ∙ gate_kept j.id gate j.consumer_name key s,
        )

  first_is :
      (calls : Calls) (j : Job) (gate : Option Gate) (key : String) (s : Store)
      → calls.reserves ≡ true
      → key ≢ ""
      → (view s).text (idempotency_key j.consumer_name key) ≡ none
      → submit server codec ttls marker_ttl idempotency_ttl calls j gate key s
        ≡ armed server codec ttls marker_ttl idempotency_ttl calls j gate key
            (set (idempotency_key j.consumer_name key) j.id idempotency_ttl s)
  unfolding submit reserve_idempotency_key
  first_is calls j gate key s r n h =
      let k = idempotency_key j.consumer_name key in
      ground (arith, r, ==-ne key "" n, h, set_nx_lem k j.id idempotency_ttl s)

  -- A key that is held: the job that holds it is looked up.
  held_is :
      (calls : Calls) (other : Job) (gate : Option Gate) (key id : String) (t : Store)
      → calls.reserves ≡ true
      → key ≢ ""
      → (view t).text (idempotency_key other.consumer_name key) ≡ some id
      → submit server codec ttls marker_ttl idempotency_ttl calls other gate key t
        ≡ (original server codec ttls marker_ttl idempotency_ttl calls other key t, t)
  unfolding submit reserve_idempotency_key
  held_is calls other gate key id t r n h =
      let k = idempotency_key other.consumer_name key in
      ground (arith, r, ==-ne key "" n, h, set_nx_lem k other.id idempotency_ttl t)

  original_is :
      (calls : Calls) (other : Job) (key id : String) (t : Store)
      → id ≢ ""
      → (view t).text (idempotency_key other.consumer_name key) ≡ some id
      → original server codec ttls marker_ttl idempotency_ttl calls other key t
        ≡ replay_of calls (get_job server codec id t)
  unfolding original get_idempotency_key
  original_is calls other key id t m h =
      let (found, error) = get_job server codec id t in
      let named = ==-ne id "" m in
      elim (Bool-cases calls.reads_key) [
        | inr k ↦ rw (original, k) refl
        | inl k ↦ elim (Option-cases error) [
          | inr (e, q) ↦ ground (arith, k, named, h, q)
          | inl q ↦ elim (Option-cases found) [
            | inl f ↦ ground (arith, k, named, h, q, f)
            | inr (job, f) ↦ ground (arith, k, named, h, q, f)
          ]
        ]
      ]

  -- Where its calls to reserve the key, to arm the gate and to save succeed, the first submission with an
  -- idempotency key that is not in use is accepted, and its job can be read. While the key is held as
  -- that submission left it, any later submission of the same client with the key, whose call to reserve it
  -- succeeds, changes nothing, however the rest of the store has changed: it is answered with
  -- the first job as its record then reads, or, where the key or the record cannot be read, with 409.
  pub submit-submit :
      (calls again : Calls) (j other : Job) (gate later : Option Gate) (key : String) (s t : Store)
      → calls.reserves ≡ true
      → calls.arms ≡ true
      → calls.saves ≡ true
      → again.reserves ≡ true
      → key ≢ ""
      → j.id ≢ ""
      → other.consumer_name ≡ j.consumer_name
      → (view s).text (idempotency_key j.consumer_name key) ≡ none
      → (view t).text (idempotency_key j.consumer_name key)
        ≡ (view (submit server codec ttls marker_ttl idempotency_ttl calls j gate key s).1).text
            (idempotency_key j.consumer_name key)
      → let (first, after) =
          submit server codec ttls marker_ttl idempotency_ttl calls j gate key s in
        (first ≡ accepted j.id)
        × (get_job server codec j.id after ≡ (some j, none))
        × (submit server codec ttls marker_ttl idempotency_ttl again other later key t
            ≡ (replay_of again (get_job server codec j.id t), t))
  submit-submit calls again j other gate later key s t r a b r' n m c h u =
      let k = idempotency_key j.consumer_name key in
      let reserved = set k j.id idempotency_ttl s in
      let (first, read, kept) = armed-accepted calls j gate key reserved a b in
      let written : (view reserved).text k ≡ some j.id =
        ground (arith, view-set k j.id idempotency_ttl s, eq_refl k) in
      let made = first_is calls j gate key s r n h in
      let at_first = ap (λ (x : Submitted × Store). (view x.1).text k) made ∙ kept ∙ written in
      let held = ap (λ consumer. (view t).text (idempotency_key consumer key)) c ∙ u ∙ at_first in
      (
        ap (λ (x : Submitted × Store). x.0) made ∙ first,
        ap (λ (x : Submitted × Store). get_job server codec j.id x.1) made ∙ read,
        held_is again other later key j.id t r' n held
            ∙ ap (λ (x : Submitted). (x, t)) (original_is again other key j.id t m held),
      )
