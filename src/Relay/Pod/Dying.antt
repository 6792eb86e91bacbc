-- ===== src/Relay/Pod/Dying.antt =====
-- main.go: a pod that exits with an error leaves what it popped.
use gatew_ai.Base.{ℕ, ◌≡◌, refl, Option, none, some, String, arith, Bool-cases, inl, inr}
use gatew_ai.Server.{Server}
use gatew_ai.Jobs.{Job, Codec}
use gatew_ai.Jobs.Records.{get_job}
use gatew_ai.Relay.{Faults, RelayState}
use gatew_ai.Relay.Processing.{Failure, canceled, infrastructure, Surroundings, process}
use gatew_ai.Relay.Processing.Escalating.{process-kept}
use gatew_ai.Relay.Pod.{fatal, is_cancelled, exit_of, ran, handled}

module _ (server : Server) (codec : Codec) (left : ℕ) (faults : Faults) (inference : Surroundings)
    (model at owner : String) (lease_ttl : ℕ) where
  exit-fatal :
      (id : String) (error : Option Failure) (w v : RelayState server)
      → ((e : Failure) → error ≡ some e → w ≡ v)
      → (exit_of server codec left faults inference model at owner lease_ttl id error w).0 ≡ fatal
      → (exit_of server codec left faults inference model at owner lease_ttl id error w).1 ≡ v
  unfolding exit_of
  exit-fatal id none w v h e = ground (arith, e)
  exit-fatal id (some canceled) w v h e = ground (arith, e)
  exit-fatal id (some infrastructure) w v h e = h infrastructure refl

  ran-fatal :
      (id : String) (job : Option Job) (w : RelayState server)
      → (ran server codec left faults inference model at owner lease_ttl id job w).0 ≡ fatal
      → (ran server codec left faults inference model at owner lease_ttl id job w).1 ≡ w
  unfolding ran
  ran-fatal id none w e = refl
  ran-fatal id (some job) w e =
      let (error, after) = process server codec left faults inference model at job w in
      elim (Bool-cases (is_cancelled job.status)) [
        | inl c ↦ ground (arith, c, e)
        | inr c ↦ ground (
          arith,
          c,
          e,
          exit-fatal id error after w
              (process-kept server codec left faults inference model at job w),
        )
      ]

  pub handled-fatal :
      (id : String) (w : RelayState server)
      → (handled server codec left faults inference model at owner lease_ttl id w).0 ≡ fatal
      → (handled server codec left faults inference model at owner lease_ttl id w).1 ≡ w
  unfolding handled
  handled-fatal id w e =
      let (job, error) = get_job server codec id w.redis in
      elim (Bool-cases faults.reads_job) [
        | inr f ↦ ground (arith, f)
        | inl f ↦ ground (arith, f, e, ran-fatal id job w)
      ]
