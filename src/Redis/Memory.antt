-- ===== src/Redis/Memory.antt =====
-- A server in memory that meets the laws: the assumptions can hold, and examples can run.
use gatew_ai.Base.{
  ℕ, ◌-◌, ◌≡◌, refl, ◌&&◌, Option, none, some, String, str_eq, eq_iff, leb, update, arith,
  if◌then◌else◌,
}
use gatew_ai.Base.Int.{ℤ, pos, negsuc, ◌+ℤ◌, leb_ℤ}
use gatew_ai.Redis.{
  Redis, or_zero, no_expiry, absent, ttl_incremented, ttl_expiring, value_later, ttl_later,
}

-- A value, and the time to live in the encoding of TTL.
pub record Entry : Type 0 where
  pub value : ℤ
  pub left : ℤ

abbrev pub Memory : Type 0
Memory = String → Option Entry

abbrev pub empty : Memory
empty _ = none

abbrev value_of : Option Entry → Option ℤ
value_of none = none
value_of (some e) = some e.value

abbrev left_of : Option Entry → ℤ
left_of none = absent
left_of (some e) = e.left

abbrev incremented : ℤ → Option Entry → Entry
incremented d none = record { value = pos 0 +ℤ d; left = no_expiry }
incremented d (some e) = record { value = e.value +ℤ d; left = e.left }

abbrev expiring : ℤ → Option Entry → Option Entry
expiring t none = none
expiring t (some e) = if leb_ℤ t (pos 0) then none else some (record { value = e.value; left = t })

abbrev later_left : ℕ → ℤ → ℤ → Option Entry
later_left n v (pos t) = if leb t n then none else some (record { value = v; left = pos (t - n) })
later_left n v (negsuc t) = some (record { value = v; left = negsuc t })

abbrev later : ℕ → Option Entry → Option Entry
later n none = none
later n (some e) = later_left n e.value e.left

value-incremented :
    (d : ℤ) (o : Option Entry)
    → value_of (some (incremented d o)) ≡ some (or_zero (value_of o) +ℤ d)
value-incremented d none = refl
value-incremented d (some e) = refl

left-incremented :
    (d : ℤ) (o : Option Entry)
    → left_of (some (incremented d o)) ≡ ttl_incremented (value_of o) (left_of o)
left-incremented d none = refl
left-incremented d (some e) = refl

pub value-later :
    (n : ℕ) (o : Option Entry) → value_of (later n o) ≡ value_later n (left_of o) (value_of o)
value-later n none = refl
value-later n (some e) = ground arith

pub left-later : (n : ℕ) (o : Option Entry) → left_of (later n o) ≡ ttl_later n (left_of o)
left-later n none = refl
left-later n (some e) = ground arith

pub get-incr_by :
    (k : String) (d : ℤ) (s : Memory) (j : String)
    → value_of (update k (some (incremented d (s k))) s j)
      ≡ (if str_eq k j then some (or_zero (value_of (s k)) +ℤ d) else value_of (s j))
get-incr_by k d s j = ground (arith, value-incremented d (s k))

pub ttl-incr_by :
    (k : String) (d : ℤ) (s : Memory) (j : String)
    → left_of (update k (some (incremented d (s k))) s j)
      ≡ (if str_eq k j then ttl_incremented (value_of (s k)) (left_of (s k)) else left_of (s j))
ttl-incr_by k d s j = ground (arith, left-incremented d (s k))

pub get-expire :
    (k : String) (t : ℤ) (s : Memory) (j : String)
    → value_of (update k (expiring t (s k)) s j)
      ≡ (if str_eq k j && leb_ℤ t (pos 0) then none else value_of (s j))
get-expire k t s j = ground (arith, eq_iff k j)

pub ttl-expire :
    (k : String) (t : ℤ) (s : Memory) (j : String)
    → left_of (update k (expiring t (s k)) s j)
      ≡ (if str_eq k j then ttl_expiring (value_of (s k)) t else left_of (s j))
ttl-expire k t s j = ground (arith, eq_iff k j)

abbrev set_entry : ℤ → Entry
set_entry n = record { value = n; left = no_expiry }

pub get-set_int :
    (k : String) (n : ℤ) (s : Memory) (j : String)
    → value_of (update k (some (set_entry n)) s j) ≡ (if str_eq k j then some n else value_of (s j))
get-set_int k n s j = ground arith

pub ttl-set_int :
    (k : String) (n : ℤ) (s : Memory) (j : String)
    → left_of (update k (some (set_entry n)) s j)
      ≡ (if str_eq k j then no_expiry else left_of (s j))
ttl-set_int k n s j = ground arith

pub get-del :
    (k : String) (s : Memory) (j : String)
    → value_of (update k none s j) ≡ (if str_eq k j then none else value_of (s j))
get-del k s j = ground arith

pub ttl-del :
    (k : String) (s : Memory) (j : String)
    → left_of (update k none s j) ≡ (if str_eq k j then absent else left_of (s j))
ttl-del k s j = ground arith

abbrev pub memory : Redis
memory = record {
  Store = Memory;
  get_int = λ s k. value_of (s k);
  ttl = λ s k. left_of (s k);
  incr_by = λ k d s. update k (some (incremented d (s k))) s;
  expire = λ k t s. update k (expiring t (s k)) s;
  set_int = λ k n s. update k (some (set_entry n)) s;
  elapse = λ n s k. later n (s k);
  del = λ k s. update k none s;
  get-incr_by = get-incr_by;
  ttl-incr_by = ttl-incr_by;
  get-expire = get-expire;
  ttl-expire = ttl-expire;
  get-set_int = get-set_int;
  ttl-set_int = ttl-set_int;
  get-elapse = λ n s j. value-later n (s j);
  ttl-elapse = λ n s j. left-later n (s j);
  get-del = get-del;
  ttl-del = ttl-del;
}
