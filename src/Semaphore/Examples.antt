-- ===== src/Semaphore/Examples.antt =====
-- semaphore.go: the theorems at a pool of three slots, one of them reserved.
use gatew_ai.Base.{refl, true, false, some, arith}
use gatew_ai.Base.Int.{pos, ◌+ℤ◌}
use gatew_ai.Redis.Memory.{memory, empty}
use gatew_ai.Semaphore.{
  ModelSemaphore, try_acquire, shared_key, reserved_key, acquire_script, count_of,
}
use gatew_ai.Semaphore.Holders.{
  World, Reach, here, next, acquires, Applies, IsCounted, Reach-IsCounted,
}

abbrev two_and_one : ModelSemaphore
two_and_one = record {
  limits = λ _. some (pos 2);
  reserved = λ _. some (pos 1);
  key_prefix = "pool";
}

slots : Applies memory two_and_one "gpu" 2 1
slots = record { limit = refl; reservation = refl }

abbrev idle : World memory two_and_one "gpu"
idle = record { store = empty; shared = 0; reserved = 0 }

idle-IsCounted : IsCounted memory two_and_one "gpu" 2 1 idle
unfolding count_of
idle-IsCounted = record {
  shared_count = refl;
  reserved_count = refl;
  shared_within = omega arith;
  reserved_within = omega arith;
}

abbrev full : World memory two_and_one "gpu"
full = record {
  store = (try_acquire memory two_and_one true "gpu" false first).1;
  shared = 2;
  reserved = 0;
}
  where
    first : memory.Store
    first = (try_acquire memory two_and_one true "gpu" false empty).1

two_calls : Reach memory two_and_one "gpu" idle full
unfolding try_acquire acquire_script shared_key reserved_key ◌+ℤ◌
two_calls = next (next here (acquires idle false)) (acquires _ false)

Reach-IsCounted_example : IsCounted memory two_and_one "gpu" 2 1 full
Reach-IsCounted_example =
    Reach-IsCounted memory two_and_one "gpu" 2 1 slots idle-IsCounted two_calls
