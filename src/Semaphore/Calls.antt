-- ===== src/Semaphore/Calls.antt =====
-- semaphore.go: what a grant takes from the two counters of a name, and its release gives back.
use gatew_ai.Base.{
  ℕ, suc, ◌≡◌, refl, ◌∙◌, Bool, true, false, ◌&&◌, ◌||◌, some, String, ltb, sym, arith,
  if◌then◌else◌,
}
use gatew_ai.Base.Int.{pos}
use gatew_ai.Redis.{Redis}
use gatew_ai.Semaphore.{
  ModelSemaphore, shared_key, reserved_key, reserved_max, count_of, acquire_script, acquired,
  released, try_acquire, release,
}
use gatew_ai.Semaphore.Scripts.{keys-ne, acquire_script_lem, release_script_lem}

module _ (redis : Redis) (sem : ModelSemaphore) (name : String) where
  open redis use {Store}

  -- The name has `m` shared and `k` reserved slots, of which `cs` and `cr` are held.
  pub record IsHeld (m k cs cr : ℕ) (s : Store) : Type 0 where
    pub limit : sem.limits name ≡ some (pos m)
    pub reservation : reserved_max sem name ≡ pos k
    pub shared_count : count_of redis s (shared_key sem name) ≡ pos cs
    pub reserved_count : count_of redis s (reserved_key sem name) ≡ pos cr

  module _ (m k cs cr : ℕ) where
    acquire_is :
        (priority : Bool) (s : Store)
        → IsHeld m k cs cr s
        → try_acquire redis sem true name priority s
          ≡ acquire_script redis
              (reserved_key sem name)
              (shared_key sem name)
              (pos k)
              (pos m)
              priority
              s
    unfolding try_acquire acquired
    acquire_is priority s h = rw (h.limit, h.reservation) refl

    pub try_acquire_lem :
        (priority : Bool) (s : Store)
        → IsHeld m k cs cr s
        → let answer = try_acquire redis sem true name priority s in
          let used = priority && ltb cr k in
          (answer.0.granted ≡ (used || ltb cs m))
          × (answer.0.used_reserved ≡ used)
          × IsHeld m k
              (if used then cs else if ltb cs m then suc cs else cs)
              (if used then suc cr else cr)
              answer.1
    try_acquire_lem priority s h =
        let (granted, used, shared, reserved) =
          acquire_script_lem redis (reserved_key sem name) (shared_key sem name) k m cr cs priority
            s (keys-ne sem name) h.reserved_count h.shared_count in
        rw (acquire_is priority s h) (
          granted,
          used,
          record {
            limit = h.limit;
            reservation = h.reservation;
            shared_count = shared;
            reserved_count = reserved;
          },
        )

    pub release_lem :
        (used : Bool) (s : Store)
        → IsHeld m k (if used then cs else suc cs) (if used then suc cr else cr) s
        → IsHeld m k cs cr (release redis sem true name used s)
    unfolding release released
    release_lem true s h =
        let (count, others) =
          release_script_lem redis (reserved_key sem name) cr s h.reserved_count in
        record {
          limit = h.limit;
          reservation = h.reservation;
          shared_count =
              rw h.limit
                (others (shared_key sem name) (λ e. keys-ne sem name (sym e)) ∙ h.shared_count);
          reserved_count = rw h.limit count;
        }
    release_lem false s h =
        let (count, others) = release_script_lem redis (shared_key sem name) cs s h.shared_count in
        record {
          limit = h.limit;
          reservation = h.reservation;
          shared_count = rw h.limit count;
          reserved_count =
              rw h.limit (others (reserved_key sem name) (keys-ne sem name) ∙ h.reserved_count);
        }

    -- A call that was refused holds nothing.
    pub refused-IsHeld :
        (used free : Bool) (s : Store)
        → (used || free) ≡ false
        → IsHeld m k
            (if used then cs else if free then suc cs else cs)
            (if used then suc cr else cr)
            s
        → IsHeld m k cs cr s
    refused-IsHeld true free s e h = absurd (ground (arith, e))
    refused-IsHeld false true s e h = absurd (ground (arith, e))
    refused-IsHeld false false s e h = h

    -- A call that was granted holds one slot.
    pub granted-IsHeld :
        (used free : Bool) (s : Store)
        → (used || free) ≡ true
        → IsHeld m k
            (if used then cs else if free then suc cs else cs)
            (if used then suc cr else cr)
            s
        → IsHeld m k (if used then cs else suc cs) (if used then suc cr else cr) s
    granted-IsHeld true free s e h = h
    granted-IsHeld false true s e h = h
    granted-IsHeld false false s e h = absurd (ground (arith, e))
