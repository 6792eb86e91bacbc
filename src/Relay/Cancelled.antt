-- ===== src/Relay/Cancelled.antt =====
-- relay.go with internal/handler/jobs.go: a job that was cancelled while relays are at work on it.
use gatew_ai.Base.{
  ◌⊎◌, ℕ, ◌≡◌, refl, sym, ap, ◌∙◌, true, false, none, some, String, str_eq, eq_iff, arith,
  Bool-cases, Option-cases, inl, inr, List, [], ◌∷◌,
}
use gatew_ai.Server.{Server, present}
use gatew_ai.Jobs.{Job, JobStatus, Codec, JobTtl, is_terminal_status, job_key}
use gatew_ai.Jobs.Records.{stored, patched, get_job}
use gatew_ai.Jobs.Records.Terminal.{settled}
use gatew_ai.Jobs.Queue.{cancelled_by_client}
use gatew_ai.Jobs.Queue.Cancelling.{stored-mark_job_cancelled}
use gatew_ai.Jobs.Cancel.{CancelCalls, CancelAnswer, accepted, can_cancel, cancel_owned, cancel}
use gatew_ai.Jobs.Polling.{shown, no_error, owned, polled, get_status}
use gatew_ai.Relay.{Faults, RelayState}
use gatew_ai.Relay.Processing.{Surroundings, process}
use gatew_ai.Relay.Processing.Final.{process-IsFinal}

-- A relay at work on its copy of a job.
pub record Run : Type 0 where
  pub faults : Faults
  pub inference : Surroundings
  pub model : String
  pub at : String
  pub job : Job

-- The job is the requester's, if the requester is named, and of the type that is asked for.
abbrev pub IsOf : String → String → Job → Type 0
IsOf requester service_type j =
    (j.service_type ≡ service_type) × ((requester ≡ "") ⊎ (j.consumer_name ≡ requester))

module _ (server : Server) (codec : Codec) (ttls : JobTtl) (left : ℕ) where
  open server use {Store, view}

  -- Runs one after the other.
  abbrev pub run_all : List Run → RelayState server → RelayState server
  run_all [] w = w
  run_all (r ∷ rs) w =
      run_all rs (process server codec left r.faults r.inference r.model r.at r.job w).1

  final-run_all :
      (rs : List Run) (id : String) (j : Job) (w : RelayState server)
      → is_terminal_status j.status ≡ true
      → stored server codec id w.redis ≡ some j
      → stored server codec id (run_all rs w).redis ≡ some j
  final-run_all [] id j w over h = h
  final-run_all (r ∷ rs) id j w over h =
      final-run_all rs id j _ over
        (process-IsFinal server codec left id j over r.faults r.inference r.model r.at r.job w h)

  get_job-stored :
      (id : String) (s : Store) (j : Job)
      → stored server codec id s ≡ some j
      → get_job server codec id s ≡ (some j, none)
  unfolding stored get_job
  get_job-stored id s j h = elim (Option-cases ((view s).text (job_key id))) [
    | inl e ↦ ground (arith, e, h)
    | inr (text, e) ↦ ground (arith, e, h)
  ]

  get_job-none :
      (id : String) (s : Store)
      → stored server codec id s ≡ none
      → present (get_job server codec id s).1 ≡ true
  unfolding stored get_job
  get_job-none id s h = elim (Option-cases ((view s).text (job_key id))) [
    | inl e ↦ ground (arith, e, h)
    | inr (text, e) ↦ ground (arith, e, h)
  ]

  -- A job that can be cancelled is not final.
  open-can_cancel : (t : JobStatus) → can_cancel t ≡ true → is_terminal_status t ≡ false
  unfolding can_cancel is_terminal_status
  open-can_cancel t h = ground (arith, h)

  accepted-owned :
      (calls : CancelCalls) (at requester service_type id : String) (j : Job) (s : Store)
      → stored server codec id s ≡ some j
      → let answer = cancel_owned server codec ttls calls at requester service_type id (some j) s in
        answer.0 ≡ accepted
        → IsOf requester service_type j
          × (stored server codec id answer.1 ≡ some (patched j (cancelled_by_client at)))
  unfolding cancel_owned
  accepted-owned calls at requester service_type id j s h =
      let (clear, written, listed) =
        stored-mark_job_cancelled server codec ttls id j.model at j s h in
      λ a. elim (Bool-cases (can_cancel j.status)) [
        | inr e ↦ ground (arith, a, e)
        | inl e ↦
            let unfinished = open-can_cancel j.status e in
            let same : settled j (cancelled_by_client at) ≡ patched j (cancelled_by_client at) =
              ground (arith, unfinished) in
            let named : (requester ≡ "") ⊎ (j.consumer_name ≡ requester) =
              elim (Bool-cases (str_eq requester "")) [
                | inl f ↦ inl (ground (arith, f, eq_iff requester ""))
                | inr f ↦ inr (ground (arith, a, f, eq_iff j.consumer_name requester))
              ] in
            (
              (ground (arith, a, eq_iff j.service_type service_type), named),
              ground (arith, a, e, written ∙ ap some same),
            )
      ]

  accepted-cancel :
      (calls : CancelCalls) (at requester service_type id : String) (s : Store)
      → (cancel server codec ttls calls at requester service_type id s).0 ≡ accepted
      → (j : Job) × (stored server codec id s ≡ some j)
        × IsOf requester service_type j
        × (stored server codec id (cancel server codec ttls calls at requester service_type id s).1
            ≡ some (patched j (cancelled_by_client at)))
  unfolding cancel
  accepted-cancel calls at requester service_type id s h =
      elim (Option-cases (stored server codec id s)) [
        | inl e ↦ ground (arith, h, get_job-none id s e)
        | inr (j, e) ↦
            let read = get_job-stored id s j e in
            let given = accepted-owned calls at requester service_type id j s e in
            elim (Bool-cases calls.reads_job) [
              | inr f ↦ ground (arith, h, f)
              | inl f ↦
                  let same : cancel server codec ttls calls at requester service_type id s
                      ≡ cancel_owned server codec ttls calls at requester service_type id (some j)
                          s =
                    ground (arith, read, f) in
                  let (own, written) =
                    given (ap (λ (x : CancelAnswer × Store). x.0) (sym same) ∙ h) in
                  (
                    j,
                    e,
                    own,
                    ap (λ (x : CancelAnswer × Store). stored server codec id x.1) same ∙ written,
                  )
            ]
      ]

  -- The poll of a job whose record shows that it is cancelled.
  shown-get_status :
      (seconds : String → ℕ) (now : ℕ) (later requester service_type id : String) (j : Job)
      (o : String) (s : Store)
      → IsOf requester service_type j
      → stored server codec id s ≡ some (patched j (cancelled_by_client o))
      → get_status server codec ttls seconds no_error now later requester service_type id s
        ≡ (shown (patched j (cancelled_by_client o)), s)
  unfolding get_status owned polled
  shown-get_status seconds now later requester service_type id j o s (typed, own) h =
      let read = get_job-stored id s (patched j (cancelled_by_client o)) h in
      elim own [
        | inl e ↦
            ground (arith, read, e, typed, eq_iff j.service_type service_type, eq_iff requester "")
        | inr e ↦ ground (
          arith,
          read,
          e,
          typed,
          eq_iff j.service_type service_type,
          eq_iff j.consumer_name requester,
        )
      ]

  -- Where Cancel is answered with 202, the job was the requester's, if the requester is named, and of the type that is
  -- asked for; and however many relays then run on copies of it, or on other jobs, and whichever of
  -- their calls fail, its record stays the cancelled one, and every poll by the requester whose calls succeed shows
  -- it as cancelled.
  pub cancelled-run_all :
      (calls : CancelCalls) (at requester service_type id : String) (s : Store) (rs : List Run)
      (w : RelayState server) (seconds : String → ℕ) (now : ℕ) (later : String)
      → (cancel server codec ttls calls at requester service_type id s).0 ≡ accepted
      → w.redis ≡ (cancel server codec ttls calls at requester service_type id s).1
      → (j : Job) × (stored server codec id s ≡ some j)
        × IsOf requester service_type j
        × (stored server codec id (run_all rs w).redis ≡ some (patched j (cancelled_by_client at)))
        × (get_status server codec ttls seconds no_error now later requester service_type id
              (run_all rs w).redis
            ≡ (shown (patched j (cancelled_by_client at)), (run_all rs w).redis))
  unfolding is_terminal_status
  cancelled-run_all calls at requester service_type id s rs w seconds now later h q =
      let (j, e, own, written) = accepted-cancel calls at requester service_type id s h in
      let last =
        final-run_all rs id (patched j (cancelled_by_client at)) w refl
          (ap (stored server codec id) q ∙ written) in
      (
        j,
        e,
        own,
        last,
        shown-get_status seconds now later requester service_type id j at _ own last,
      )
