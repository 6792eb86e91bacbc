-- ===== src/Server.antt =====
-- The texts, lists, sorted sets and counters of the Redis server that the job storage uses. The
-- server is not part of the repository: it is a parameter. Its commands are described by what they do
-- to a view of the store; each key is used for one kind of value, as the gateway's keys are. That a key
-- expires is a `del` of the environment.
pub mod Memory
use gatew_ai.Base.{
  ℕ, suc, ◌≡◌, Bool, true, false, Option, none, some, String, str_eq, List, [], ◌∷◌, ◌++◌, update,
  update₂, if◌then◌else◌,
}

pub record View : Type 0 where
  pub text : String → Option String
  pub list : String → List String
  pub score : String → String → Option ℕ  -- of the members of a sorted set
  pub counter : String → ℕ

-- LREM with count 1 removes the first occurrence.
abbrev pub remove_first : String → List String → List String
remove_first x [] = []
remove_first x (y ∷ ys) = if str_eq y x then ys else y ∷ remove_first x ys

abbrev pub present {ℓ} : {A : Type ℓ} → Option A → Bool
present none = false
present (some a) = true

abbrev pub first {ℓ} : {A : Type ℓ} → List A → Option A
first [] = none
first (x ∷ xs) = some x

abbrev pub move_first : String → String → View → List String → View
move_first from to v [] = v
move_first from to v (x ∷ xs) =
    let popped = update from xs v.list in record v { list = update to (popped to ++ x ∷ []) popped }

pub record Server : Type 1 where
  pub Store : Type 0
  pub view : Store → View
  pub set : String → String → ℕ → Store → Store  -- SET with a time to live
  pub del : String → Store → Store
  pub set_nx : String → String → ℕ → Store → Bool × Store
  pub lpush : String → String → Store → Store
  pub rpush : String → String → Store → Store
  pub lrem : String → String → Store → Store
  pub lmove : String → String → Store → Option String × Store  -- LEFT, RIGHT
  pub zadd : String → ℕ → String → Store → Store
  pub zrem : String → String → Store → Store
  pub incr : String → Store → Store
  pub expire : String → ℕ → Store → Store
  pub view-set :
      (k v : String) (t : ℕ) (s : Store)
      → view (set k v t s) ≡ record (view s) { text = update k (some v) (view s).text }
  pub view-del :
      (k : String) (s : Store)
      → view (del k s) ≡ record (view s) { text = update k none (view s).text }
  pub set_nx_lem :
      (k v : String) (t : ℕ) (s : Store)
      → set_nx k v t s ≡ (if present ((view s).text k) then (false, s) else (true, set k v t s))
  pub view-lpush :
      (k x : String) (s : Store)
      → view (lpush k x s) ≡ record (view s) { list = update k (x ∷ (view s).list k) (view s).list }
  pub view-rpush :
      (k x : String) (s : Store)
      → view (rpush k x s)
        ≡ record (view s) { list = update k ((view s).list k ++ x ∷ []) (view s).list }
  pub view-lrem :
      (k x : String) (s : Store)
      → view (lrem k x s)
        ≡ record (view s) { list = update k (remove_first x ((view s).list k)) (view s).list }
  pub moved-lmove : (a b : String) (s : Store) → (lmove a b s).0 ≡ first ((view s).list a)
  pub view-lmove :
      (a b : String) (s : Store) → view (lmove a b s).1 ≡ move_first a b (view s) ((view s).list a)
  pub view-zadd :
      (k : String) (n : ℕ) (x : String) (s : Store)
      → view (zadd k n x s) ≡ record (view s) { score = update₂ k x (some n) (view s).score }
  pub view-zrem :
      (k x : String) (s : Store)
      → view (zrem k x s) ≡ record (view s) { score = update₂ k x none (view s).score }
  pub view-incr :
      (k : String) (s : Store)
      → view (incr k s)
        ≡ record (view s) { counter = update k (suc ((view s).counter k)) (view s).counter }
  pub view-expire : (k : String) (t : ℕ) (s : Store) → view (expire k (suc t) s) ≡ view s
