-- ===== src/Semaphore.antt =====
-- internal/concurrency/semaphore.go: the slots of sync calls per model, or per backend pool, counted
-- on the Redis server. `up` says whether the script of the call reaches the server.
pub mod Limits
pub mod Scripts
pub mod Holders
pub mod Calls
pub mod Examples
use gatew_ai.Base.{
  ℕ, ◌≡◌, Bool, true, false, ◌&&◌, ◌||◌, Option, none, some, String, append, str_eq, update, List,
  [], ◌∷◌, if◌then◌else◌,
}
use gatew_ai.Base.Int.{ℤ, pos, negsuc, ◌-ℤ◌, leb_ℤ, ltb_ℤ}
use gatew_ai.Redis.{Redis, or_zero}

pub record ModelSemaphore : Type 0 where
  pub limits : String → Option ℤ
  pub reserved : String → Option ℤ
  pub key_prefix : String

-- What a constructor reads of a service definition, or of a pool: its name, the number of slots and
-- how many of them are reserved for priority requests.
pub record Pool : Type 0 where
  pub name : String
  pub max_concurrent : ℤ
  pub priority_reserved : ℤ

-- A reservation that is negative or larger than the pool counts as none.
unfoldable pub reservation : ℤ → ℤ → ℤ
reservation max r = if ltb_ℤ r (pos 0) || ltb_ℤ max r then pos 0 else r

abbrev pub SlotMaps : Type 0
SlotMaps = (String → Option ℤ) × (String → Option ℤ) × Bool

configured : Pool → SlotMaps → SlotMaps
unfolding reservation
configured p (limits, reserved, some_limit) =
    let r = reservation p.max_concurrent p.priority_reserved in
    if ltb_ℤ (pos 0) p.max_concurrent
    then (
      update p.name (some (p.max_concurrent -ℤ r)) limits,
      (if ltb_ℤ (pos 0) r then update p.name (some r) reserved else reserved),
      true,
    )
    else (limits, reserved, some_limit)

-- The loop of the two constructors; the flag stands for `len(limits) != 0`.
unfoldable pub configure : List Pool → SlotMaps → SlotMaps
unfolding configured
configure [] maps = maps
configure (p ∷ ps) maps = configure ps (configured p maps)

no_maps : SlotMaps
no_maps = (λ _. none, λ _. none, false)

built : String → SlotMaps → Option ModelSemaphore
built prefix (limits, reserved, some_limit) =
    if some_limit
    then some (record { limits = limits; reserved = reserved; key_prefix = prefix })
    else none

unfoldable pub new_model_semaphore : List Pool → Option ModelSemaphore
unfolding configure no_maps built
new_model_semaphore definitions = built "" (configure definitions no_maps)

unfoldable pub new_pool_semaphore : List Pool → Option ModelSemaphore
unfolding configure no_maps built
new_pool_semaphore pools = built "pool" (configure pools no_maps)

namespace : ModelSemaphore → String
namespace s = if str_eq s.key_prefix "" then "sync" else s.key_prefix

unfoldable pub shared_key : ModelSemaphore → String → String
unfolding namespace
shared_key s name = append "gateway:semaphore:" (append (namespace s) (append ":" name))

unfoldable pub reserved_key : ModelSemaphore → String → String
unfolding namespace
reserved_key s name =
    append "gateway:semaphore:" (append (namespace s) (append ":" (append name ":priority")))

-- 30 minutes.
abbrev pub semaphore_ttl : ℤ
semaphore_ttl = pos 1800

-- Which slot a call holds.
pub record Acquired : Type 0 where
  pub granted : Bool
  pub used_reserved : Bool

-- Whether the acquire and the release of one call reach the server.
pub record SlotCalls : Type 0 where
  pub acquires : Bool
  pub releases : Bool

abbrev pub both_reach : SlotCalls
both_reach = record { acquires = true; releases = true }

abbrev pub reserved_max : ModelSemaphore → String → ℤ
reserved_max s name = or_zero (s.reserved name)

module _ (redis : Redis) where
  open redis use {Store, get_int, incr_by, expire, set_int}

  unfoldable pub count_of : Store → String → ℤ
  count_of s key = or_zero (get_int s key)

  -- INCR with a refreshed time to live, taken back by DECR if the count is over the limit.
  counted : String → Store → Store
  counted key s = expire key semaphore_ttl (incr_by key (pos 1) s)

  taken_back : String → Store → Store
  taken_back key s = incr_by key (negsuc 0) s

  shared_slot : String → ℤ → Store → Acquired × Store
  unfolding count_of counted taken_back
  shared_slot key max s =
      let after = counted key s in
      if leb_ℤ (count_of after key) max
      then (record { granted = true; used_reserved = false }, after)
      else (record { granted = false; used_reserved = false }, taken_back key after)

  -- KEYS and ARGV of the script: the two keys, their limits, and whether the request has priority.
  unfoldable pub acquire_script : String → String → ℤ → ℤ → Bool → Store → Acquired × Store
  unfolding shared_slot count_of counted taken_back
  acquire_script reserved shared reserved_limit shared_limit priority s =
      let after = counted reserved s in
      if priority && ltb_ℤ (pos 0) reserved_limit
      then (if leb_ℤ (count_of after reserved) reserved_limit
          then (record { granted = true; used_reserved = true }, after)
          else shared_slot shared shared_limit (taken_back reserved after))
      else shared_slot shared shared_limit s

  unfoldable pub release_script : String → Store → Store
  unfolding count_of taken_back
  release_script key s =
      let after = taken_back key s in
      if ltb_ℤ (count_of after key) (pos 0) then set_int key (pos 0) after else after

  acquired : ModelSemaphore → Bool → String → Bool → Option ℤ → Store → Acquired × Store
  acquired sem up name priority none s = (record { granted = true; used_reserved = false }, s)
  acquired sem false name priority (some max) s =
      (record { granted = true; used_reserved = false }, s)
  acquired sem true name priority (some max) s =
      acquire_script (reserved_key sem name) (shared_key sem name) (reserved_max sem name) max
        priority s

  -- A name with no limit is granted, and so is one whose script fails.
  unfoldable pub try_acquire : ModelSemaphore → Bool → String → Bool → Store → Acquired × Store
  unfolding acquired
  try_acquire sem up name priority s = acquired sem up name priority (sem.limits name) s

  released : Option ℤ → Bool → String → Store → Store
  released none up key s = s
  released (some max) false key s = s
  released (some max) true key s = release_script key s

  unfoldable pub release : ModelSemaphore → Bool → String → Bool → Store → Store
  unfolding released
  release sem up name used_reserved s =
      released (sem.limits name) up
        (if used_reserved then reserved_key sem name else shared_key sem name) s
