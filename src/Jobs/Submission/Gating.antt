-- ===== src/Jobs/Submission/Gating.antt =====
-- jobs.go: a job whose result is to be scanned cannot be found without its gate.
use gatew_ai.Base.{
  ℕ, ◌≡◌, ◌≢◌, ◌⊎◌, refl, sym, ap, ◌∙◌, true, not, ◌||◌, none, some, String, str_eq, eq_refl, ==-ne,
  arith, Bool-cases, inl, inr,
}
use gatew_ai.Server.{Server, present}
use gatew_ai.Jobs.{Job, Codec, JobTtl, job_key, scan_gate_key, idempotency_key}
use gatew_ai.Jobs.Records.{get_job}
use gatew_ai.Jobs.Records.Saving.{get_job-save_job, text-save_job}
use gatew_ai.Jobs.Claims.{reserve_idempotency_key, release_idempotency_key}
use gatew_ai.Jobs.Submission.{
  Gate, Calls, Submitted, accepted, set_scan_gate, clear_scan_gate, released, cleared, saved, armed,
  original, submit,
}
use gatew_ai.Jobs.Submission.Saved.{job_idem, job_gate, meta_gate}

module _ (server : Server) (codec : Codec) (ttls : JobTtl) (marker_ttl idempotency_ttl : ℕ) where
  open server use {Store, view, set, del, set_nx, set_nx_lem, view-set, view-del}

  -- The job is accepted, with its gate armed and its record readable; or its record is as before.
  abbrev pub IsGated : Job → Store → Submitted × Store → Type 0
  IsGated j s answer =
      ((answer.0 ≡ accepted j.id)
        × (present ((view answer.1).text (scan_gate_key j.id)) ≡ true)
        × (get_job server codec j.id answer.1 ≡ (some j, none)))
      ⊎ ((answer.0 ≢ accepted j.id)
          × ((view answer.1).text (job_key j.id) ≡ (view s).text (job_key j.id)))

  text-released :
      (calls : Calls) (j : Job) (key : String) (s : Store)
      → (view (released server codec ttls marker_ttl idempotency_ttl calls j key s)).text
          (job_key j.id)
        ≡ (view s).text (job_key j.id)
  unfolding released release_idempotency_key
  text-released calls j key s =
      let k = idempotency_key j.consumer_name key in
      ground (
        arith,
        view-del k s,
        ==-ne k (job_key j.id) (λ e. job_idem j.id j.consumer_name key (sym e)),
      )

  text-cleared :
      (calls : Calls) (j : Job) (g : Gate) (s : Store)
      → (view (cleared server codec ttls marker_ttl idempotency_ttl calls j (some g) s)).text
          (job_key j.id)
        ≡ (view s).text (job_key j.id)
  unfolding cleared clear_scan_gate
  text-cleared calls j g s = ground (
    arith,
    view-del (scan_gate_key j.id) s,
    ==-ne (scan_gate_key j.id) (job_key j.id) (λ e. job_gate j.id j.id (sym e)),
  )

  text-armed :
      (id : String) (g : Gate) (s : Store)
      → let after = set_scan_gate server codec ttls marker_ttl idempotency_ttl id g s in
        ((view after).text (job_key id) ≡ (view s).text (job_key id))
        × (present ((view after).text (scan_gate_key id)) ≡ true)
  unfolding set_scan_gate
  text-armed id g s = (
    rw view-set (rw (==-ne (scan_gate_key id) (job_key id) (λ e. job_gate id id (sym e))) refl),
    rw view-set (rw (eq_refl (scan_gate_key id)) refl),
  )

  armed-IsGated :
      (calls : Calls) (j : Job) (g : Gate) (key : String) (s : Store)
      → IsGated j s (armed server codec ttls marker_ttl idempotency_ttl calls j (some g) key s)
  unfolding armed saved
  armed-IsGated calls j g key s = elim (Bool-cases calls.arms) [
    | inr e ↦ rw e (inr (λ q. ground (arith, q), text-released calls j key s))
    | inl e ↦
        let gated = set_scan_gate server codec ttls marker_ttl idempotency_ttl j.id g s in
        let (kept, there) = text-armed j.id g s in
        elim (Bool-cases calls.saves) [
          | inr f ↦
              let back = released server codec ttls marker_ttl idempotency_ttl calls j key gated in
              rw (e, f)
                (inr (
                  λ q. ground (arith, q),
                  text-cleared calls j g back ∙ text-released calls j key gated ∙ kept,
                ))
          | inl f ↦
              let still =
                text-save_job server codec ttls marker_ttl j gated (scan_gate_key j.id)
                  (job_gate j.id j.id) (meta_gate j.id j.id) in
              rw (e, f)
                (inl (
                  refl,
                  ap present still ∙ there,
                  (get_job-save_job server codec ttls marker_ttl j gated).0,
                ))
        ]
  ]

  text-reserved :
      (j : Job) (key : String) (s : Store)
      → (view (reserve_idempotency_key server j.consumer_name key j.id idempotency_ttl s).1).text
          (job_key j.id)
        ≡ (view s).text (job_key j.id)
  unfolding reserve_idempotency_key
  text-reserved j key s =
      let k = idempotency_key j.consumer_name key in
      ground (
        arith,
        set_nx_lem k j.id idempotency_ttl s,
        view-set k j.id idempotency_ttl s,
        ==-ne k (job_key j.id) (λ e. job_idem j.id j.consumer_name key (sym e)),
      )

  original-ne :
      (calls : Calls) (j : Job) (key id : String) (s : Store)
      → original server codec ttls marker_ttl idempotency_ttl calls j key s ≢ accepted id
  unfolding original
  original-ne calls j key id s e = ground (arith, e)

  -- Whichever calls of Redis fail: a job whose result is to be scanned is accepted with its gate armed and
  -- its record readable, or is not accepted and leaves its record as it was.
  pub submit-IsGated :
      (calls : Calls) (j : Job) (g : Gate) (key : String) (s : Store)
      → IsGated j s (submit server codec ttls marker_ttl idempotency_ttl calls j (some g) key s)
  unfolding submit
  submit-IsGated calls j g key s =
      let (won, reserved) =
        reserve_idempotency_key server j.consumer_name key j.id idempotency_ttl s in
      let kept = text-reserved j key s in
      elim (Bool-cases (str_eq key "" || not calls.reserves)) [
        | inl e ↦ rw e (armed-IsGated calls j g key s)
        | inr e ↦ elim (Bool-cases won) [
          | inr f ↦ rw (e, f) (inr (original-ne calls j key j.id reserved, kept))
          | inl f ↦ elim (armed-IsGated calls j g key reserved) [
            | inl there ↦ rw (e, f) (inl there)
            | inr (out, same) ↦ rw (e, f) (inr (out, same ∙ kept))
          ]
        ]
      ]
