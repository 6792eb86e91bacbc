-- ===== src/Semaphore/Scripts.antt =====
-- semaphore.go: what the two scripts do to the two counters of a name.
use text.Mathlib.TextLemmas.{append-nil, append_cancel_left, nil≢cons}
use gatew_ai.Base.{
  ℕ, suc, ◌<◌, ◌≡◌, ◌≢◌, refl, sym, ◌∙◌, Bool, true, false, ◌&&◌, ◌||◌, Option, String, append,
  str_eq, eq_refl, ==-ne, ltb, arith, if◌then◌else◌, Bool-cases, inl, inr,
}
use gatew_ai.Base.Int.{ℤ, pos, negsuc, ◌+ℤ◌}
use gatew_ai.Redis.{Redis, or_zero, value_later}
use gatew_ai.Semaphore.{
  ModelSemaphore, namespace, shared_key, reserved_key, semaphore_ttl, count_of, counted, taken_back,
  shared_slot, acquire_script, release_script,
}

suffix-ne : (s : String) → s ≢ append s ":priority"
suffix-ne s e = nil≢cons (append_cancel_left s _ _ (append-nil s ∙ e))

pub keys-ne : (sem : ModelSemaphore) (name : String) → shared_key sem name ≢ reserved_key sem name
unfolding shared_key reserved_key namespace
keys-ne sem name e = suffix-ne name (
    append_cancel_left ":" _ _
      (append_cancel_left _ _ _ (append_cancel_left "gateway:semaphore:" _ _ e)))

-- Time may pass while no counter expires.
abbrev pub Outlives : ℤ → ℕ → Type 0
Outlives (pos t) n = n < t
Outlives (negsuc t) n = Unit {0}

value_later-Outlives :
    (n : ℕ) (t : ℤ) (v : Option ℤ) → Outlives t n → or_zero (value_later n t v) ≡ or_zero v
value_later-Outlives n (pos t) v h = ground arith
value_later-Outlives n (negsuc t) v h = refl

module _ (redis : Redis) where
  open redis use {
    Store, get_int, ttl, incr_by, expire, set_int, elapse, get-incr_by, get-expire, get-set_int,
    get-elapse,
  }

  count-counted :
      (key j : String) (s : Store)
      → count_of redis (counted redis key s) j
        ≡ (if str_eq key j then count_of redis s key +ℤ pos 1 else count_of redis s j)
  unfolding counted count_of
  count-counted key j s =
      ground
        (arith, get-expire key semaphore_ttl (incr_by key (pos 1) s) j, get-incr_by key (pos 1) s j)

  count-taken_back :
      (key j : String) (s : Store)
      → count_of redis (taken_back redis key s) j
        ≡ (if str_eq key j then count_of redis s key +ℤ negsuc 0 else count_of redis s j)
  unfolding taken_back count_of
  count-taken_back key j s = ground (arith, get-incr_by key (negsuc 0) s j)

  count-set :
      (key j : String) (n : ℤ) (s : Store)
      → count_of redis (set_int key n s) j ≡ (if str_eq key j then n else count_of redis s j)
  unfolding count_of
  count-set key j n s = ground (arith, get-set_int key n s j)

  -- A slot of one counter with `c` held of `max`.
  shared_slot_lem :
      (key : String) (max c : ℕ) (s : Store)
      → count_of redis s key ≡ pos c
      → let answer = shared_slot redis key (pos max) s in
        (answer.0.granted ≡ ltb c max)
        × (answer.0.used_reserved ≡ false)
        × (count_of redis answer.1 key ≡ pos (if ltb c max then suc c else c))
        × ((j : String) → key ≢ j → count_of redis answer.1 j ≡ count_of redis s j)
  unfolding shared_slot ◌+ℤ◌
  shared_slot_lem key max c s h =
      let after = counted redis key s in
      (
        ground (arith, count-counted key key s, eq_refl key),
        ground (arith, count-counted key key s, eq_refl key),
        ground (arith, count-counted key key s, count-taken_back key key after, eq_refl key),
        λ j k. ground (
          arith,
          count-counted key key s,
          eq_refl key,
          count-counted key j s,
          count-taken_back key j after,
          ==-ne key j k,
        ),
      )

  -- The two counters while the script tries the reserved one, and after it took that back.
  reserved_counts :
      (reserved shared : String) (cr cs : ℕ) (s : Store)
      → shared ≢ reserved
      → count_of redis s reserved ≡ pos cr
      → count_of redis s shared ≡ pos cs
      → let after = counted redis reserved s in
        let back = taken_back redis reserved after in
        (count_of redis after reserved ≡ pos (suc cr))
        × (count_of redis after shared ≡ pos cs)
        × (count_of redis back reserved ≡ pos cr)
        × (count_of redis back shared ≡ pos cs)
  unfolding ◌+ℤ◌
  reserved_counts reserved shared cr cs s d hr hs =
      let after = counted redis reserved s in
      let apart = ==-ne reserved shared (λ e. d (sym e)) in
      let self = eq_refl reserved in
      (
        ground (arith, count-counted reserved reserved s),
        ground (arith, count-counted reserved shared s),
        ground (arith, count-counted reserved reserved s, count-taken_back reserved reserved after),
        ground (arith, count-counted reserved shared s, count-taken_back reserved shared after),
      )

  -- The script with `cs` of `m` shared and `cr` of `k` reserved slots held.
  pub acquire_script_lem :
      (reserved shared : String) (k m cr cs : ℕ) (priority : Bool) (s : Store)
      → shared ≢ reserved
      → count_of redis s reserved ≡ pos cr
      → count_of redis s shared ≡ pos cs
      → let answer = acquire_script redis reserved shared (pos k) (pos m) priority s in
        let used = priority && ltb cr k in
        (answer.0.granted ≡ (used || ltb cs m))
        × (answer.0.used_reserved ≡ used)
        × (count_of redis answer.1 shared
            ≡ pos (if used then cs else if ltb cs m then suc cs else cs))
        × (count_of redis answer.1 reserved ≡ pos (if used then suc cr else cr))
  unfolding acquire_script
  acquire_script_lem reserved shared k m cr cs false s d hr hs =
      let (granted, used, count, others) = shared_slot_lem shared m cs s hs in
      (granted, used, count, others reserved d ∙ hr)
  acquire_script_lem reserved shared k m cr cs true s d hr hs =
      let (up_reserved, up_shared, back_reserved, back_shared) =
        reserved_counts reserved shared cr cs s d hr hs in
      let back = taken_back redis reserved (counted redis reserved s) in
      elim (Bool-cases (ltb 0 k)) [
        | inl some_reserved ↦ elim (Bool-cases (ltb cr k)) [
          | inl free ↦ ground (arith, some_reserved, free, up_reserved, up_shared)
          | inr full ↦
              let (granted, used, count, others) = shared_slot_lem shared m cs back back_shared in
              ground (
                arith,
                some_reserved,
                full,
                up_reserved,
                granted,
                used,
                count,
                others reserved d,
                back_reserved,
              )
        ]
        | inr none_reserved ↦
            let (granted, used, count, others) = shared_slot_lem shared m cs s hs in
            ground (arith, none_reserved, granted, used, count, others reserved d, hr)
      ]

  pub release_script_lem :
      (key : String) (n : ℕ) (s : Store)
      → count_of redis s key ≡ pos (suc n)
      → (count_of redis (release_script redis key s) key ≡ pos n)
        × ((j : String)
            → key ≢ j
            → count_of redis (release_script redis key s) j ≡ count_of redis s j)
  unfolding release_script ◌+ℤ◌
  release_script_lem key n s h =
      let after = taken_back redis key s in
      (
        ground (arith, count-taken_back key key s, eq_refl key),
        λ j d.
            ground (arith, count-taken_back key j s, count-set key j (pos 0) after, ==-ne key j d),
      )

  pub count-elapse :
      (key : String) (n : ℕ) (s : Store)
      → Outlives (ttl s key) n
      → count_of redis (elapse n s) key ≡ count_of redis s key
  unfolding count_of
  count-elapse key n s h = rw get-elapse (value_later-Outlives n (ttl s key) (get_int s key) h)
