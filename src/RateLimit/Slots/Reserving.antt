-- ===== src/RateLimit/Slots/Reserving.antt =====
-- ratelimit.go: how many submissions get a slot at once.
use gatew_ai.Base.{
  ℕ, zero, suc, ◌+◌, ◌-◌, ◌<◌, ◌≡◌, ◌∙◌, true, false, Option, none, String, str_eq, eq_refl, ltb,
  min, List, Bool-cases, inl, inr, arith, if◌then◌else◌,
}
use gatew_ai.Base.Int.{ℤ, pos, negsuc, ◌+ℤ◌}
use gatew_ai.Redis.{Redis, or_zero}
use gatew_ai.Jobs.{Job}
use gatew_ai.RateLimit.{Limiter, Request, resolve_identity}
use gatew_ai.RateLimit.Slots.{
  active_jobs, in_flight_key, check_and_reserve_script, release_slot_script, is_configured,
  reserved_for, check_concurrent, release_slot,
}

module _ (redis : Redis) (l : Limiter) (r : Request) (service : String) where
  open redis use {Store, get_int, incr_by, expire, get-incr_by, get-expire}

  -- The key of the consumer's slots in flight.
  abbrev pub slots_key : String
  slots_key = let i = resolve_identity l r service in in_flight_key i.consumer service i.user_type

  abbrev pub in_flight : Store → ℤ
  in_flight s = or_zero (get_int s slots_key)

  -- A limit on jobs at once is in force for the request: it is configured and positive, and the consumer is known.
  pub record IsLimited (max : ℕ) : Type 0 where
    pub configured : is_configured redis l true service ≡ true
    pub limit : (resolve_identity l r service).config.max_concurrent ≡ pos (suc max)
    pub known : str_eq (resolve_identity l r service).consumer "anonymous" ≡ false

  -- One check, with `n` slots in flight.
  one_check :
      (max n : ℕ) (record_of : String → Option Job) (ids : List String) (s : Store)
      → IsLimited max
      → in_flight s ≡ pos n
      → let (reply, after) = check_concurrent redis l true r service record_of ids s in
        let free = ltb (active_jobs service record_of ids + n) (suc max) in
        (reply.result.allowed ≡ free) × (in_flight after ≡ pos (if free then suc n else n))
  unfolding check_concurrent reserved_for check_and_reserve_script ◌+ℤ◌
  one_check max n record_of ids s c h = ground (
    arith,
    c.configured,
    c.limit,
    c.known,
    h,
    get-incr_by slots_key (pos 1) s slots_key,
    get-expire slots_key (pos 300) (incr_by slots_key (pos 1) s) slots_key,
    eq_refl slots_key,
  )

  -- How many of a number of checks are allowed, while no job is saved and no slot released.
  pub admitted : (String → Option Job) → List String → ℕ → Store → ℕ
  admitted record_of ids zero s = 0
  admitted record_of ids (suc k) s =
      let (reply, after) = check_concurrent redis l true r service record_of ids s in
      let rest = admitted record_of ids k after in if reply.result.allowed then suc rest else rest

  -- Of any number of submissions at once, as many get a slot as the limit leaves beside the
  -- consumer's active jobs and the slots in flight.
  pub admitted-min :
      (max n k : ℕ) (record_of : String → Option Job) (ids : List String) (s : Store)
      → IsLimited max
      → in_flight s ≡ pos n
      → admitted record_of ids k s ≡ min k (suc max - (active_jobs service record_of ids + n))
  unfolding admitted
  admitted-min max n zero record_of ids s c h = omega arith
  admitted-min max n (suc k) record_of ids s c h =
      let (allowed, held) = one_check max n record_of ids s c h in
      let after = (check_concurrent redis l true r service record_of ids s).1 in
      elim (Bool-cases (ltb (active_jobs service record_of ids + n) (suc max))) [
        | inl free ↦ ground (
          arith,
          free,
          allowed,
          admitted-min max (suc n) k record_of ids after c (held ∙ ground (arith, free)),
        )
        | inr full ↦ ground (
          arith,
          full,
          allowed,
          admitted-min max n k record_of ids after c (held ∙ ground (arith, full)),
        )
      ]

  -- An allowed check holds one slot more, and its release gives that slot back without an error.
  pub release_slot-check_concurrent :
      (max n : ℕ) (record_of : String → Option Job) (ids : List String) (s : Store)
      → IsLimited max
      → in_flight s ≡ pos n
      → active_jobs service record_of ids + n < suc max
      → let (reply, held) = check_concurrent redis l true r service record_of ids s in
        let (error, after) = release_slot redis l true r service held in
        (reply.result.allowed ≡ true)
        × (in_flight held ≡ pos (suc n))
        × (error ≡ none)
        × (in_flight after ≡ pos n)
  unfolding release_slot release_slot_script ◌+ℤ◌
  release_slot-check_concurrent max n record_of ids s c h less =
      let (allowed, more) = one_check max n record_of ids s c h in
      let held = (check_concurrent redis l true r service record_of ids s).1 in
      ground (
        arith,
        less,
        allowed,
        more,
        c.limit,
        c.known,
        get-incr_by slots_key (negsuc 0) held slots_key,
        eq_refl slots_key,
      )
