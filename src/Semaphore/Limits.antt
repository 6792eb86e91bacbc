-- ===== src/Semaphore/Limits.antt =====
-- semaphore.go: how the constructors split the slots of a model or pool.
use gatew_ai.Base.{
  ◌≡◌, ◌≢◌, refl, ◌∙◌, true, none, some, String, eq_refl, ==-ne, List, [], ◌∷◌, ◌++◌, All, arith,
  ap,
}
use gatew_ai.Base.Int.{ℤ, pos, ◌+ℤ◌, ◌-ℤ◌, ◌≤ℤ◌, ◌<ℤ◌, int_laws}
use gatew_ai.Redis.{or_zero}
use gatew_ai.Semaphore.{
  ModelSemaphore, Pool, SlotMaps, configured, reservation, configure, no_maps, new_pool_semaphore,
  reserved_max,
}

abbrev pub Unnamed : String → List Pool → Type 0
Unnamed name = All (λ p. p.name ≢ name)

configure-Unnamed :
    (name : String) (ps : List Pool) (maps : SlotMaps)
    → Unnamed name ps
    → ((configure ps maps).0 name ≡ maps.0 name) × ((configure ps maps).1 name ≡ maps.1 name)
unfolding configure
configure-Unnamed name [] maps h = (refl, refl)
configure-Unnamed name (p ∷ ps) (limits, reserved, some_limit) h = ground (
  arith,
  configure-Unnamed name ps (configured p (limits, reserved, some_limit)) h.1,
  ==-ne p.name name h.0,
)

configure-some : (ps : List Pool) (maps : SlotMaps) → maps.2 ≡ true → (configure ps maps).2 ≡ true
unfolding configure
configure-some [] maps h = h
configure-some (p ∷ ps) (limits, reserved, some_limit) h =
    configure-some ps (configured p (limits, reserved, some_limit)) (ground arith)

reservation_bounds :
    (max r : ℤ) → pos 0 <ℤ max → (pos 0 ≤ℤ reservation max r) × (reservation max r ≤ℤ max)
unfolding reservation
reservation_bounds max r h = ground arith

split_here :
    (p : Pool) (maps : SlotMaps)
    → maps.1 p.name ≡ none
    → pos 0 <ℤ p.max_concurrent
    → let r = reservation p.max_concurrent p.priority_reserved in
      ((configured p maps).0 p.name ≡ some (p.max_concurrent -ℤ r))
      × (or_zero ((configured p maps).1 p.name) ≡ r)
      × ((configured p maps).2 ≡ true)
unfolding configured
split_here p (limits, reserved, some_limit) h k = ground (arith, eq_refl p.name)

split_maps :
    (before rest : List Pool) (p : Pool) (maps : SlotMaps)
    → maps.1 p.name ≡ none
    → Unnamed p.name before
    → Unnamed p.name rest
    → pos 0 <ℤ p.max_concurrent
    → let c = configure (before ++ p ∷ rest) maps in
      let r = reservation p.max_concurrent p.priority_reserved in
      (c.0 p.name ≡ some (p.max_concurrent -ℤ r)) × (or_zero (c.1 p.name) ≡ r) × (c.2 ≡ true)
unfolding configure
split_maps [] rest p maps h u v k =
    let (shared, kept, known) = split_here p maps h k in
    let (same, kept_same) = configure-Unnamed p.name rest (configured p maps) v in
    (same ∙ shared, ap or_zero kept_same ∙ kept, configure-some rest (configured p maps) known)
split_maps (q ∷ before) rest p (limits, reserved, some_limit) h u v k =
    split_maps before rest p (configured q (limits, reserved, some_limit))
      (ground (arith, h, ==-ne q.name p.name u.0)) u.1 v k

-- The slots of one pool, and the two limits that stand for it.
pub record Splits (p : Pool) (sem : ModelSemaphore) : Type 0 where
  pub shared : ℤ
  pub found : sem.limits p.name ≡ some shared
  pub sum : shared +ℤ reserved_max sem p.name ≡ p.max_concurrent
  pub shared_nonneg : pos 0 ≤ℤ shared
  pub reserved_nonneg : pos 0 ≤ℤ reserved_max sem p.name

-- A pool with slots, and a name of its own among those of its file, gets two limits of which none
-- is negative and that add up to its slots.
pub new_pool_semaphore-Splits :
    (before rest : List Pool) (p : Pool)
    → Unnamed p.name before
    → Unnamed p.name rest
    → pos 0 <ℤ p.max_concurrent
    → (sem : ModelSemaphore) × (new_pool_semaphore (before ++ p ∷ rest) ≡ some sem) × Splits p sem
unfolding new_pool_semaphore
new_pool_semaphore-Splits before rest p u v k =
    let maps = configure (before ++ p ∷ rest) no_maps in
    let (shared, kept, known) = split_maps before rest p no_maps refl u v k in
    let (low, high) = reservation_bounds p.max_concurrent p.priority_reserved k in
    (
      record { limits = maps.0; reserved = maps.1; key_prefix = "pool" },
      ground (arith, known),
      record {
        shared = p.max_concurrent -ℤ reservation p.max_concurrent p.priority_reserved;
        found = shared;
        sum = rw kept (omega int_laws);
        shared_nonneg = omega (int_laws, high);
        reserved_nonneg = rw kept low;
      },
    )
