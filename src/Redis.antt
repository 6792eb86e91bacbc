-- ===== src/Redis.antt =====
-- The integer keys of the Redis server that the gateway's Lua scripts use. The server is not part of
-- the repository: it is a parameter, with the documented behaviour of its commands as laws. The laws
-- speak of keys that hold an integer or nothing, as all the keys of these scripts do.
pub mod Memory
use gatew_ai.Base.{ℕ, ◌-◌, ◌≡◌, Bool, ◌&&◌, Option, none, some, String, str_eq, leb, if◌then◌else◌}
use gatew_ai.Base.Int.{ℤ, pos, negsuc, ◌+ℤ◌, leb_ℤ}

-- An absent key counts as 0.
abbrev pub or_zero : Option ℤ → ℤ
or_zero none = pos 0
or_zero (some n) = n

-- The replies of TTL besides the seconds that are left.
abbrev pub no_expiry : ℤ
no_expiry = negsuc 0

abbrev pub absent : ℤ
absent = negsuc 1

-- A key that INCRBY makes has no expiry; one that is there keeps its own.
abbrev pub ttl_incremented : Option ℤ → ℤ → ℤ
ttl_incremented none t = no_expiry
ttl_incremented (some n) t = t

-- EXPIRE does nothing to an absent key, and deletes the key where the time is not positive.
abbrev pub ttl_expiring : Option ℤ → ℤ → ℤ
ttl_expiring none t = absent
ttl_expiring (some n) t = if leb_ℤ t (pos 0) then absent else t

-- What is left of a value and of its time to live when `n` seconds have passed.
abbrev pub value_later : ℕ → ℤ → Option ℤ → Option ℤ
value_later n (pos t) v = if leb t n then none else v
value_later n (negsuc t) v = v

abbrev pub ttl_later : ℕ → ℤ → ℤ
ttl_later n (pos t) = if leb t n then absent else pos (t - n)
ttl_later n (negsuc t) = negsuc t

pub record Redis : Type 1 where
  pub Store : Type 0
  pub get_int : Store → String → Option ℤ
  pub ttl : Store → String → ℤ
  pub incr_by : String → ℤ → Store → Store
  pub expire : String → ℤ → Store → Store
  pub set_int : String → ℤ → Store → Store
  pub elapse : ℕ → Store → Store
  pub del : String → Store → Store
  pub get-incr_by :
      (k : String) (d : ℤ) (s : Store) (j : String)
      → get_int (incr_by k d s) j
        ≡ (if str_eq k j then some (or_zero (get_int s k) +ℤ d) else get_int s j)
  pub ttl-incr_by :
      (k : String) (d : ℤ) (s : Store) (j : String)
      → ttl (incr_by k d s) j
        ≡ (if str_eq k j then ttl_incremented (get_int s k) (ttl s k) else ttl s j)
  pub get-expire :
      (k : String) (t : ℤ) (s : Store) (j : String)
      → get_int (expire k t s) j ≡ (if str_eq k j && leb_ℤ t (pos 0) then none else get_int s j)
  pub ttl-expire :
      (k : String) (t : ℤ) (s : Store) (j : String)
      → ttl (expire k t s) j ≡ (if str_eq k j then ttl_expiring (get_int s k) t else ttl s j)
  pub get-set_int :
      (k : String) (n : ℤ) (s : Store) (j : String)
      → get_int (set_int k n s) j ≡ (if str_eq k j then some n else get_int s j)
  pub ttl-set_int :
      (k : String) (n : ℤ) (s : Store) (j : String)
      → ttl (set_int k n s) j ≡ (if str_eq k j then no_expiry else ttl s j)
  pub get-elapse :
      (n : ℕ) (s : Store) (j : String)
      → get_int (elapse n s) j ≡ value_later n (ttl s j) (get_int s j)
  pub ttl-elapse : (n : ℕ) (s : Store) (j : String) → ttl (elapse n s) j ≡ ttl_later n (ttl s j)
  pub get-del :
      (k : String) (s : Store) (j : String)
      → get_int (del k s) j ≡ (if str_eq k j then none else get_int s j)
  pub ttl-del :
      (k : String) (s : Store) (j : String)
      → ttl (del k s) j ≡ (if str_eq k j then absent else ttl s j)
