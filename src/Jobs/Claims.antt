-- ===== src/Jobs/Claims.antt =====
-- storage/redis.go: the claims that one caller alone can win, of a job's completion work and of an
-- idempotency key.
pub mod Winning
use gatew_ai.Base.{ℕ, Bool, Option, none, some, String}
use gatew_ai.Server.{Server, View}
use gatew_ai.Jobs.{JobTtl, completed, ttl_for_status, completion_claim_key, idempotency_key}

module _ (server : Server) where
  open server use {Store, view, set_nx, del}

  unfoldable pub claim_completion : JobTtl → String → Store → Bool × Store
  claim_completion ttls id s =
      set_nx (completion_claim_key id) "1" (ttl_for_status ttls completed) s

  unfoldable pub reserve_idempotency_key : String → String → String → ℕ → Store → Bool × Store
  reserve_idempotency_key consumer key id ttl s = set_nx (idempotency_key consumer key) id ttl s

  -- "" stands for an absent key.
  unfoldable pub get_idempotency_key : String → String → Store → String
  get_idempotency_key consumer key s = elim ((view s).text (idempotency_key consumer key)) [
    | none ↦ ""
    | some v ↦ v
  ]

  unfoldable pub release_idempotency_key : String → String → Store → Store
  release_idempotency_key consumer key s = del (idempotency_key consumer key) s
