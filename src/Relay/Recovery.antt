-- ===== src/Relay/Recovery.antt =====
-- main.go and redis.go: a job whose pod dies is run again.
use gatew_ai.Base.{
  ℕ, ◌≡◌, refl, sym, ap, ◌∙◌, true, false, none, some, String, eq_refl, ==-ne, ltb, List, [], ◌∷◌,
  ◌++◌, arith,
}
use gatew_ai.Server.{Server, remove_first}
use gatew_ai.Jobs.{
  Job, Codec, JobTtl, is_terminal_status, job_key, pending_key, processing_key, lease_key,
  attempts_key,
}
use gatew_ai.Jobs.Records.{stored, patched}
use gatew_ai.Jobs.Queue.Order.{processing_key-ne}
use gatew_ai.Jobs.Reaper.{has, ReapResult, reap_entry, requeued_update}
use gatew_ai.Jobs.Reaper.Requeued.{reap_entry_abandoned}
use gatew_ai.Relay.{Faults, RelayState, pop, refresh_lease}
use gatew_ai.Relay.Processing.{Surroundings}
use gatew_ai.Relay.Processing.Settling.{job-lease_ne}
use gatew_ai.Relay.Pod.Dying.{handled-fatal}
use gatew_ai.Relay.Pod.{fatal, pod}

has-last : (x : String) (xs : List String) → has x (xs ++ x ∷ []) ≡ true
has-last x [] = rw (eq_refl x) refl
has-last x (y ∷ ys) = ground (arith, has-last x ys)

module _ (server : Server) (codec : Codec) where
  open server use {Store, view, set, del, lmove, view-set, view-del, moved-lmove, view-lmove}

  -- What a pod leaves once it has popped a job and its lease is over.
  unleased-pop :
      (faults : Faults) (model owner id : String) (ttl : ℕ) (rest : List String) (s : Store)
      → (view s).list (pending_key model) ≡ id ∷ rest
      → let (popped, after) = pop server faults model owner ttl s in
        let free = del (lease_key model id) after in
        (popped ≡ some id)
        × ((view free).list (pending_key model) ≡ rest)
        × ((view free).list (processing_key model)
            ≡ (view s).list (processing_key model) ++ id ∷ [])
        × ((view free).text (lease_key model id) ≡ none)
        × (stored server codec id free ≡ stored server codec id s)
        × ((view free).counter ≡ (view s).counter)
  unfolding pop refresh_lease stored
  unleased-pop faults model owner id ttl rest s h =
      let (popped, moved) = lmove (pending_key model) (processing_key model) s in
      let leased = set (lease_key model id) owner ttl moved in
      ground (
        arith,
        h,
        moved-lmove (pending_key model) (processing_key model) s,
        view-lmove (pending_key model) (processing_key model) s,
        view-set (lease_key model id) owner ttl moved,
        view-del (lease_key model id) moved,
        view-del (lease_key model id) leased,
        eq_refl (pending_key model),
        eq_refl (processing_key model),
        eq_refl (lease_key model id),
        ==-ne (pending_key model) (processing_key model) (λ e. processing_key-ne model (sym e)),
        ==-ne (processing_key model) (pending_key model) (processing_key-ne model),
        ==-ne (lease_key model id) (job_key id) (λ e. job-lease_ne id model id (sym e)),
      )

  -- A pod that pops a stored and unfinished job and exits with an error, whatever went wrong, does not
  -- lose it: once its lease is over, and if it was tried fewer times than the limit, the reaper puts it at
  -- the end of the pending list, pending again, and takes its entry out of the processing list.
  pub reap_entry-pod :
      (left : ℕ) (faults : Faults) (inference : Surroundings) (model at owner : String)
      (lease_ttl : ℕ) (ttls : JobTtl) (later : String) (max : ℕ) (res : ReapResult) (id : String)
      (rest : List String) (j : Job) (w : RelayState server)
      → (view w.redis).list (pending_key model) ≡ id ∷ rest
      → stored server codec id w.redis ≡ some j
      → is_terminal_status j.status ≡ false
      → ltb ((view w.redis).counter (attempts_key model id)) max ≡ true
      → (pod server codec left faults inference model at owner lease_ttl w).0 ≡ fatal
      → let died = (pod server codec left faults inference model at owner lease_ttl w).1 in
        let free = del (lease_key model id) died.redis in
        let after = (reap_entry server codec ttls later model max id res free).1 in
        ((view after).list (pending_key model) ≡ rest ++ id ∷ [])
        × ((view after).list (processing_key model)
            ≡ remove_first id ((view w.redis).list (processing_key model) ++ id ∷ []))
        × (stored server codec id after ≡ some (patched j (requeued_update later)))
  unfolding pod
  reap_entry-pod left faults inference model at owner lease_ttl ttls later max res id rest j w
        queued h u few e =
      let (popped, moved) = pop server faults model owner lease_ttl w.redis in
      let w' : RelayState server = record w { redis = moved } in
      let (there, pending, entries, free, kept, counts) =
        unleased-pop faults model owner id lease_ttl rest w.redis queued in
      let dead : (pod server codec left faults inference model at owner lease_ttl w).1 ≡ w' =
        ground (
          arith,
          there,
          e,
          handled-fatal server codec left faults inference model at owner lease_ttl id w',
        ) in
      let s = del (lease_key model id) moved in
      let (again, taken, tried, status) =
        reap_entry_abandoned server codec ttls later model id max j res s free
          (ap (has id) entries ∙ has-last id _) (kept ∙ h) u in
      let few' = ap (λ (c : String → ℕ). ltb (c (attempts_key model id)) max) counts ∙ few in
      rw dead (
        ground (arith, again, few', pending),
        taken ∙ ap (remove_first id) entries,
        ground (arith, status, few'),
      )
