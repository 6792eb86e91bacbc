-- ===== src/Jobs/Claims/Winning.antt =====
-- storage/redis.go: who wins a claim.
use gatew_ai.Base.{
  ℕ, zero, suc, ◌≡◌, refl, true, false, none, String, eq_refl, arith, if◌then◌else◌,
}
use gatew_ai.Server.{Server, present}
use gatew_ai.Jobs.{JobTtl, completed, ttl_for_status, completion_claim_key, idempotency_key}
use gatew_ai.Jobs.Claims.{
  claim_completion, reserve_idempotency_key, get_idempotency_key, release_idempotency_key,
}

module _ (server : Server) where
  open server use {Store, view, set_nx, set, del, set_nx_lem, view-set, view-del}

  -- How many of `n` triggers win the claim of a job's completion.
  pub winners : JobTtl → String → ℕ → Store → ℕ
  winners ttls id zero s = 0
  winners ttls id (suc n) s =
      let (won, after) = claim_completion server ttls id s in
      let rest = winners ttls id n after in if won then suc rest else rest

  lost :
      (ttls : JobTtl) (id : String) (s : Store)
      → present ((view s).text (completion_claim_key id)) ≡ true
      → claim_completion server ttls id s ≡ (false, s)
  unfolding claim_completion
  lost ttls id s h =
      ground (arith, h, set_nx_lem (completion_claim_key id) "1" (ttl_for_status ttls completed) s)

  won :
      (ttls : JobTtl) (id : String) (s : Store)
      → (view s).text (completion_claim_key id) ≡ none
      → ((claim_completion server ttls id s).0 ≡ true)
        × (present ((view (claim_completion server ttls id s).1).text (completion_claim_key id))
            ≡ true)
  unfolding claim_completion
  won ttls id s h =
      let key = completion_claim_key id in
      let ttl = ttl_for_status ttls completed in
      ground (arith, h, set_nx_lem key "1" ttl s, view-set key "1" ttl s, eq_refl key)

  winners_none :
      (ttls : JobTtl) (id : String) (n : ℕ) (s : Store)
      → present ((view s).text (completion_claim_key id)) ≡ true
      → winners ttls id n s ≡ 0
  unfolding winners
  winners_none ttls id zero s h = refl
  winners_none ttls id (suc n) s h = ground (arith, lost ttls id s h, winners_none ttls id n s h)

  -- However many triggers try to do the completion work of a job that nobody has claimed, one does.
  pub winners_one :
      (ttls : JobTtl) (id : String) (n : ℕ) (s : Store)
      → (view s).text (completion_claim_key id) ≡ none
      → winners ttls id (suc n) s ≡ 1
  unfolding winners
  winners_one ttls id n s h =
      let (first_wins, taken) = won ttls id s h in
      ground (arith, first_wins, winners_none ttls id n (claim_completion server ttls id s).1 taken)

  -- The first submission with an idempotency key reserves it; a later one does not, and is told the
  -- job of the first; once the key is released it can be reserved again.
  pub reserve-reserve :
      (consumer key id other : String) (ttl : ℕ) (s : Store)
      → (view s).text (idempotency_key consumer key) ≡ none
      → let (won, taken) = reserve_idempotency_key server consumer key id ttl s in
        let (again, kept) = reserve_idempotency_key server consumer key other ttl taken in
        (won ≡ true)
        × (again ≡ false)
        × (get_idempotency_key server consumer key kept ≡ id)
        × ((reserve_idempotency_key server consumer key other ttl
              (release_idempotency_key server consumer key kept)).0
            ≡ true)
  unfolding reserve_idempotency_key get_idempotency_key release_idempotency_key
  reserve-reserve consumer key id other ttl s h =
      let k = idempotency_key consumer key in
      let taken = set k id ttl s in
      ground (
        arith,
        h,
        set_nx_lem k id ttl s,
        view-set k id ttl s,
        set_nx_lem k other ttl taken,
        view-del k taken,
        set_nx_lem k other ttl (del k taken),
        eq_refl k,
      )
