-- ===== src/RateLimit/Slots.antt =====
-- ratelimit.go: CheckConcurrent and ReleaseSlot, with their scripts. The ids of the consumer's jobs and the
-- records that they have are arguments: the script only reads them.
pub mod Reserving
pub mod Examples
use gatew_ai.Base.{
  ℕ, suc, Bool, true, false, not, ◌&&◌, ◌||◌, Option, none, some, String, str_eq, List, [], ◌∷◌,
  if◌then◌else◌,
}
use gatew_ai.Base.Int.{ℤ, pos, negsuc, ◌+ℤ◌, ◌-ℤ◌, leb_ℤ, ltb_ℤ, eqb_ℤ}
use gatew_ai.Redis.{Redis, or_zero}
use gatew_ai.Jobs.{Job, JobStatus, pending, processing}
use gatew_ai.RateLimit.{
  Limiter, Request, Identity, CheckResult, allowed_only, Reply, ok, Error, script_failed,
  resolve_identity, key₃, remaining_of,
}

abbrev pub is_active : JobStatus → Bool
is_active pending = true
is_active processing = true
is_active s = false

abbrev pub counts_for : String → Option Job → Bool
counts_for service none = false
counts_for service (some j) = is_active j.status && str_eq j.service_type service

-- The jobs of a service that are pending or processing.
unfoldable pub active_jobs : String → (String → Option Job) → List String → ℕ
active_jobs service record_of [] = 0
active_jobs service record_of (id ∷ ids) =
    let rest = active_jobs service record_of ids in
    if counts_for service (record_of id) then suc rest else rest

abbrev pub in_flight_key : String → String → String → String
in_flight_key consumer service user_type = key₃ "jc:" consumer service user_type

-- 5 minutes.
abbrev concurrent_slot_ttl : ℤ
concurrent_slot_ttl = pos 300

-- The script's reply.
pub record Slot : Type 0 where
  pub current : ℤ
  pub reserved : Bool

abbrev slot_reply : ℤ → Slot → Reply
slot_reply limit slot = ok (record {
  allowed = slot.reserved;
  limit = limit;
  remaining = remaining_of limit slot.current;
  reset_after = pos 0;
})

module _ (redis : Redis) where
  open redis use {Store, get_int, incr_by, expire}

  unfoldable pub check_and_reserve_script : String → ℕ → ℤ → Store → Slot × Store
  check_and_reserve_script key active max s =
      let total = pos active +ℤ or_zero (get_int s key) in
      let after = incr_by key (pos 1) s in
      if leb_ℤ max total then (record { current = total; reserved = false }, s) else (
        record { current = or_zero (get_int after key) +ℤ pos active; reserved = true },
        expire key concurrent_slot_ttl after,
      )

  unfoldable pub release_slot_script : String → Store → Store
  release_slot_script key s =
      if leb_ℤ (or_zero (get_int s key)) (pos 0) then s else incr_by key (negsuc 0) s

  module _ (l : Limiter) (up : Bool) where
    abbrev is_configured : String → Bool
    is_configured service = elim (l.limits service) [ none ↦ false | some m ↦ true ]

    reserved_for : Identity → String → ℕ → Store → Reply × Store
    reserved_for i service active s =
        let key = in_flight_key i.consumer service i.user_type in
        let (slot, after) = check_and_reserve_script key active i.config.max_concurrent s in
        if up
        then (slot_reply i.config.max_concurrent slot, after)
        else (record { result = allowed_only; error = some script_failed }, s)

    unfoldable pub check_concurrent :
        Request → String → (String → Option Job) → List String → Store → Reply × Store
    unfolding reserved_for
    check_concurrent r service record_of ids s =
        let i = resolve_identity l r service in
        if not (is_configured service)
        then (ok allowed_only, s)
        else if eqb_ℤ i.config.max_concurrent (pos 0)
        then (ok allowed_only, s)
        else if str_eq i.consumer "anonymous"
        then (ok allowed_only, s)
        else reserved_for i service (active_jobs service record_of ids) s

    unfoldable pub release_slot : Request → String → Store → Option Error × Store
    release_slot r service s =
        let i = resolve_identity l r service in
        if eqb_ℤ i.config.max_concurrent (pos 0) || str_eq i.consumer "anonymous"
        then (none, s)
        else if up
        then (none, release_slot_script (in_flight_key i.consumer service i.user_type) s)
        else (some script_failed, s)
