-- ===== src/Server/Memory.antt =====
-- A server whose store is the view: the assumptions can hold, and examples can run.
use gatew_ai.Base.{
  suc, refl, true, false, none, some, [], ◌∷◌, ◌++◌, update, update₂, if◌then◌else◌,
}
use gatew_ai.Server.{View, Server, remove_first, present, first, move_first}

abbrev pub empty : View
empty = record { text = λ _. none; list = λ _. []; score = λ _ _. none; counter = λ _. 0 }

abbrev pub memory : Server
memory = record {
  Store = View;
  view = λ s. s;
  set = λ k v t s. record s { text = update k (some v) s.text };
  del = λ k s. record s { text = update k none s.text };
  set_nx = λ k v t s.
      if present (s.text k)
      then (false, s)
      else (true, record s { text = update k (some v) s.text });
  lpush = λ k x s. record s { list = update k (x ∷ s.list k) s.list };
  rpush = λ k x s. record s { list = update k (s.list k ++ x ∷ []) s.list };
  lrem = λ k x s. record s { list = update k (remove_first x (s.list k)) s.list };
  lmove = λ a b s. (first (s.list a), move_first a b s (s.list a));
  zadd = λ k n x s. record s { score = update₂ k x (some n) s.score };
  zrem = λ k x s. record s { score = update₂ k x none s.score };
  incr = λ k s. record s { counter = update k (suc (s.counter k)) s.counter };
  expire = λ k t s. s;
  view-set = λ k v t s. refl;
  view-del = λ k s. refl;
  set_nx_lem = λ k v t s. refl;
  view-lpush = λ k x s. refl;
  view-rpush = λ k x s. refl;
  view-lrem = λ k x s. refl;
  moved-lmove = λ a b s. refl;
  view-lmove = λ a b s. refl;
  view-zadd = λ k n x s. refl;
  view-zrem = λ k x s. refl;
  view-incr = λ k s. refl;
  view-expire = λ k t s. refl;
}
