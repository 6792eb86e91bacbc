-- ===== src/RateLimit/Quotas/Fresh.antt =====
-- ratelimit.go: a reset gives a consumer its whole budgets back.
use gatew_ai.Base.{
  ℕ, ◌≡◌, ◌⊎◌, ap, ◌∙◌, Bool, true, false, none, some, String, str_eq, eq_refl, List, [], ◌∷◌, ◌++◌,
  ◌||◌, arith, Bool-cases, Option-cases, inl, inr,
}
use gatew_ai.Redis.{Redis}
use gatew_ai.RateLimit.{key₂, key₃}
use gatew_ai.RateLimit.Quotas.{
  ScanReply, scan_keys, patterns, keys_found, policy_keys, deleted, reset_quota,
}

abbrev listed : String → List String → Bool
listed k [] = false
listed k (x ∷ xs) = str_eq x k || listed k xs

listed-left : (k : String) (xs ys : List String) → listed k xs ≡ true → listed k (xs ++ ys) ≡ true
listed-left k [] ys h = ground (arith, h)
listed-left k (x ∷ xs) ys h = ground (arith, h, listed-left k xs ys)

listed-right : (k : String) (xs ys : List String) → listed k ys ≡ true → listed k (xs ++ ys) ≡ true
listed-right k [] ys h = h
listed-right k (x ∷ xs) ys h = ground (arith, listed-right k xs ys h)

in_more :
    (k : String) (xs ys found : List String)
    → found ≡ xs ++ ys
    → listed k ys ≡ true
    → listed k found ≡ true
in_more k xs ys found e h = rw e (listed-right k xs ys h)

or_listed : {A B C : Type 0} → A ⊎ B → (B → C) → A ⊎ C
or_listed (inl x) f = inl x
or_listed (inr y) f = inr (f y)

-- What the scan of the first pattern found, and those of the others.
first_found :
    (replies : String → List ScanReply) (p : String) (ps found : List String)
    → keys_found replies (p ∷ ps) ≡ some found
    → (here : List String) × (more : List String) × (scan_keys (replies p) ≡ some here)
      × (keys_found replies ps ≡ some more)
      × (found ≡ here ++ more)
unfolding keys_found
first_found replies p ps found h = elim (Option-cases (scan_keys (replies p))) [
  | inl e ↦ ground (arith, e, h)
  | inr (here, e) ↦ elim (Option-cases (keys_found replies ps)) [
    | inl f ↦ ground (arith, e, f, h)
    | inr (more, f) ↦ (here, more, e, f, ground (arith, e, f, h))
  ]
]

module _ (redis : Redis) where
  open redis use {Store, get_int, get-del}

  absent-deleted :
      (ks : List String) (k : String) (s : Store)
      → get_int s k ≡ none
      → get_int (deleted redis ks s).1 k ≡ none
  unfolding deleted
  absent-deleted [] k s h = h
  absent-deleted (x ∷ ks) k s h =
      absent-deleted ks k (redis.del x s) (ground (arith, h, get-del x s k))

  listed-deleted :
      (ks : List String) (k : String) (s : Store)
      → listed k ks ≡ true
      → get_int (deleted redis ks s).1 k ≡ none
  unfolding deleted
  listed-deleted [] k s h = ground (arith, h)
  listed-deleted (x ∷ ks) k s h = elim (Bool-cases (str_eq x k)) [
    | inl e ↦ absent-deleted ks k (redis.del x s) (ground (arith, e, get-del x s k))
    | inr e ↦ listed-deleted ks k (redis.del x s) (ground (arith, e, h))
  ]

  -- What SCAN promises of a pattern that ends in `*`, and has no other special character: each key that is
  -- there and begins with what stands before it is found.
  abbrev pub Finds : (String → List ScanReply) → Store → String → String → String → Type 0
  Finds replies s prefix consumer service =
      (x : String) (found : List String)
      → scan_keys (replies (key₃ prefix consumer service "*")) ≡ some found
      → (get_int s (key₃ prefix consumer service x) ≡ none)
        ⊎ (listed (key₃ prefix consumer service x) found ≡ true)

  module _ (replies : String → List ScanReply) (consumer service model : String) (s t : Store)
      (n : ℕ) (done : reset_quota redis replies true consumer service model s ≡ (some n, t)) where
    found_keys :
        (found : List String) × (keys_found replies (patterns consumer service model) ≡ some found)
        × (t ≡ (deleted redis (found ++ policy_keys consumer service) s).1)
    unfolding reset_quota
    found_keys = elim (Option-cases (keys_found replies (patterns consumer service model))) [
      | inl e ↦ ground (arith, e, done)
      | inr (found, e) ↦ (found, e, ground (arith, e, done))
    ]

    -- A key is gone if it was not there, or if a scan found it.
    gone :
        (found : List String) (k : String)
        → t ≡ (deleted redis (found ++ policy_keys consumer service) s).1
        → (get_int s k ≡ none) ⊎ (listed k found ≡ true)
        → get_int t k ≡ none
    gone found k e o =
        let keys = found ++ policy_keys consumer service in
        elim o [
          | inl h ↦ ap (λ u. get_int u k) e ∙ absent-deleted keys k s h
          | inr h ↦
              ap (λ u. get_int u k) e
              ∙ listed-deleted keys k s (listed-left k found (policy_keys consumer service) h)
        ]

    policy_gone :
        (found : List String) (k : String)
        → t ≡ (deleted redis (found ++ policy_keys consumer service) s).1
        → listed k (policy_keys consumer service) ≡ true
        → get_int t k ≡ none
    policy_gone found k e h =
        let keys = policy_keys consumer service in
        ap (λ u. get_int u k) e ∙ listed-deleted (found ++ keys) k s (listed-right k found keys h)

    -- The counters of the service, of whatever user type, and of the policy rule.
    pub record AreGone : Type 0 where
      pub calls : (x : String) → get_int t (key₃ "rl:" consumer service x) ≡ none
      pub tokens : (x : String) → get_int t (key₃ "trl:" consumer service x) ≡ none
      pub time : (x : String) → get_int t (key₃ "ptrl:" consumer service x) ≡ none
      pub policy_calls : get_int t (key₂ "rlp:" consumer service) ≡ none
      pub policy_tokens : get_int t (key₂ "trlp:" consumer service) ≡ none

    pub AreGone-reset_quota :
        Finds replies s "rl:" consumer service
        → Finds replies s "trl:" consumer service
        → Finds replies s "ptrl:" consumer service
        → AreGone
    unfolding patterns
    AreGone-reset_quota calls tokens time =
        let (found, e, q) = found_keys in
        let (a, more, ea, em, fa) = first_found replies _ _ found e in
        let (b, rest, eb, er, fb) = first_found replies _ _ more em in
        let (c, last, ec, el, fc) = first_found replies _ _ rest er in
        record {
          calls =
              λ x. gone found _ q (or_listed (calls x a ea) (λ m. rw fa (listed-left _ a more m)));
          tokens = λ x. gone found _ q (
              or_listed (tokens x b eb)
                (λ m. in_more _ a more found fa (rw fb (listed-left _ b rest m))));
          time = λ x. gone found _ q (
              or_listed (time x c ec) (λ m.
                in_more _ a more found fa
                  (in_more _ b rest more fb (rw fc (listed-left _ c last m)))));
          policy_calls =
              policy_gone found _ q (ground (arith, eq_refl (key₂ "rlp:" consumer service)));
          policy_tokens =
              policy_gone found _ q (ground (arith, eq_refl (key₂ "trlp:" consumer service)));
        }
