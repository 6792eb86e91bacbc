-- ===== src/Jobs/Reaper/Conservation.antt =====
-- storage/redis.go: no job is lost by the reaper.
use text.Mathlib.TextLemmas.{append_cancel_left}
use gatew_ai.Base.{
  ℕ, suc, ◌+◌, ◌≡◌, ◌≢◌, refl, sym, ap, true, false, some, String, str_eq, eq_iff, eq_refl, ==-ne,
  ==-cases, inl, inr, Option-cases, List, [], ◌∷◌, ◌++◌, arith, if◌then◌else◌,
}
use gatew_ai.Server.{Server, remove_first}
use gatew_ai.Jobs.{
  Job, Codec, JobTtl, is_terminal_status, job_key, pending_key, processing_key, dead_letter_key,
  attempts_key,
}
use gatew_ai.Jobs.Queue.Order.{processing_key-ne}
use gatew_ai.Jobs.Reaper.{
  recorded, mode_of, reaped, reclaim, ReapOutcome, alive, gone, dropped, requeued, dead_lettered,
  has, reap_script, ReapResult, requeued_update, dead_letter_update, reap_entry,
}
use gatew_ai.Jobs.Records.{stored}
use gatew_ai.Jobs.Records.Terminal.{list-update}

-- How often an id stands in a list.
abbrev pub occurrences : String → List String → ℕ
occurrences x [] = 0
occurrences x (y ∷ ys) = let rest = occurrences x ys in if str_eq y x then suc rest else rest

occurrences-remove_first :
    (x z : String) (xs : List String)
    → has x xs ≡ true
    → occurrences z (x ∷ []) + occurrences z (remove_first x xs) ≡ occurrences z xs
occurrences-remove_first x z [] h = cc
occurrences-remove_first x z (y ∷ ys) h = elim (==-cases y x) [
  | inl (e, t) ↦ ground (arith, ap (λ w. str_eq w z) e, h, t)
  | inr (n, f) ↦ ground (arith, f, h, occurrences-remove_first x z ys)
]

occurrences-++ :
    (z : String) (xs : List String) (y : String)
    → occurrences z (xs ++ y ∷ []) ≡ occurrences z xs + occurrences z (y ∷ [])
occurrences-++ z [] y = ground arith
occurrences-++ z (x ∷ xs) y = ground (arith, occurrences-++ z xs y)

pub processing-dead_letter_ne : (model : String) → processing_key model ≢ dead_letter_key model
processing-dead_letter_ne model e =
    let bad = append_cancel_left model _ _ (append_cancel_left "relay:" _ _ e) in
    ground (arith, eq_iff ":processing" ":deadletter")

pub pending-dead_letter_ne : (model : String) → pending_key model ≢ dead_letter_key model
pending-dead_letter_ne model e =
    let bad = append_cancel_left model _ _ (append_cancel_left "relay:" _ _ e) in
    ground (arith, eq_iff ":pending" ":deadletter")

processing-pending_ne : (model : String) → pending_key model ≢ processing_key model
processing-pending_ne model e = processing_key-ne model (sym e)

module _ (server : Server) (model : String) where
  open server use {
    Store, view, lrem, rpush, incr, expire, view-lrem, view-rpush, view-incr, view-expire,
  }

  -- How often an id stands in the three lists of a model's relay.
  abbrev pub total : String → Store → ℕ
  total z s =
      let list = (view s).list in
      occurrences z (list (pending_key model))
      + occurrences z (list (processing_key model))
      + occurrences z (list (dead_letter_key model))

  pub list-tried :
      (id : String) (s : Store)
      → let tried =
          expire
            (attempts_key model id)
            86400
            (incr (attempts_key model id) (lrem (processing_key model) id s)) in
        ((view tried).list ≡ (view (lrem (processing_key model) id s)).list)
        × ((view tried).counter (attempts_key model id)
            ≡ suc ((view s).counter (attempts_key model id)))
        × ((view tried).text ≡ (view s).text)
  list-tried id s =
      let removed = lrem (processing_key model) id s in
      let key = attempts_key model id in
      ground (
        arith,
        view-expire key 86399 (incr key removed),
        view-incr key removed,
        view-lrem (processing_key model) id s,
        eq_refl key,
      )

  total-script :
      (id z : String) (max : ℕ) (s : Store)
      → total z (reap_script server model id max reclaim s).1 ≡ total z s
  unfolding reap_script
  total-script id z max s =
      let removed = lrem (processing_key model) id s in
      let tried = expire (attempts_key model id) 86400 (incr (attempts_key model id) removed) in
      let (lists, counts, texts) = list-tried id s in
      ground (
        arith,
        lists,
        view-lrem (processing_key model) id s,
        eq_refl (processing_key model),
        eq_refl (pending_key model),
        eq_refl (dead_letter_key model),
        view-rpush (pending_key model) id tried,
        view-rpush (dead_letter_key model) id tried,
        occurrences-remove_first id z ((view s).list (processing_key model)),
        occurrences-++ z ((view s).list (pending_key model)) id,
        occurrences-++ z ((view s).list (dead_letter_key model)) id,
        ==-ne (processing_key model) (pending_key model) (processing_key-ne model),
        ==-ne (processing_key model) (dead_letter_key model) (processing-dead_letter_ne model),
        ==-ne (pending_key model) (processing_key model) (processing-pending_ne model),
        ==-ne (pending_key model) (dead_letter_key model) (pending-dead_letter_ne model),
        ==-ne (dead_letter_key model) (processing_key model)
            (λ e. processing-dead_letter_ne model (sym e)),
        ==-ne (dead_letter_key model) (pending_key model)
            (λ e. pending-dead_letter_ne model (sym e)),
      )

  module _ (codec : Codec) (ttls : JobTtl) (at : String) where
    list-recorded :
        (max : ℕ) (id : String) (out : ReapOutcome) (res : ReapResult) (s : Store)
        → (view (recorded server codec ttls at max id out res s).1).list ≡ (view s).list
    unfolding recorded
    list-recorded max id requeued res s =
        (list-update server codec ttls id (requeued_update at) s).0
    list-recorded max id dead_lettered res s =
        (list-update server codec ttls id (dead_letter_update max at) s).0
    list-recorded max id alive res s = refl
    list-recorded max id gone res s = refl
    list-recorded max id dropped res s = refl

    pub mode_live :
        (id : String) (j : Job) (s : Store)
        → stored server codec id s ≡ some j
        → is_terminal_status j.status ≡ false
        → mode_of server codec ttls at ((view s).text (job_key id)) ≡ some reclaim
    unfolding mode_of stored
    mode_live id j s h u = elim (Option-cases ((view s).text (job_key id))) [
      | inl e ↦ ground (arith, e)
      | inr (t, e) ↦ ground (arith, e)
    ]

    -- Looking at an entry of the processing list whose job is stored and unfinished loses no job: each id
    -- stands as often as before in the pending, processing and dead-letter lists of the model, together.
    pub total-reap_entry :
        (id z : String) (max : ℕ) (j : Job) (res : ReapResult) (s : Store)
        → stored server codec id s ≡ some j
        → is_terminal_status j.status ≡ false
        → total z (reap_entry server codec ttls at model max id res s).1 ≡ total z s
    unfolding reap_entry reaped
    total-reap_entry id z max j res s h u =
        let (outcome, after) = reap_script server model id max reclaim s in
        ground (
          arith,
          mode_live id j s h u,
          list-recorded max id outcome res after,
          total-script id z max s,
        )
