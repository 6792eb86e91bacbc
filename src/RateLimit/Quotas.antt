-- ===== src/RateLimit/Quotas.antt =====
-- ratelimit.go: ResetQuota and scanKeys, with the handler of internal/handler/quota.go. What the server replies to
-- SCAN, call by call, is an argument for each pattern; a scan whose replies run out was given up by
-- its context. `dels` is whether DEL reaches the server.
pub mod Fresh
pub mod Restored
pub mod Examples
use gatew_ai.Base.{
  ℕ, suc, Bool, true, false, Option, none, some, String, append, str_eq, List, [], ◌∷◌, ◌++◌, ◌==◌,
  if◌then◌else◌,
}
use gatew_ai.Redis.{Redis}
use gatew_ai.Server.{present}
use gatew_ai.RateLimit.{key₂, key₃}

pub data ScanReply : Type 0 where
  unreachable : ScanReply
  batch : List String → (cursor : ℕ) → ScanReply

unfoldable pub scan_keys : List ScanReply → Option (List String)
scan_keys [] = none
scan_keys (unreachable ∷ rest) = none
scan_keys (batch found cursor ∷ rest) =
    let more = scan_keys rest in
    if cursor == 0 then some found else elim more [ none ↦ none | some keys ↦ some (found ++ keys) ]

-- With a model, its token budgets too.
unfoldable pub patterns : String → String → String → List String
patterns consumer service model =
    key₃ "rl:" consumer service "*"
    ∷ key₃ "trl:" consumer service "*"
    ∷ key₃ "ptrl:" consumer service "*"
    ∷ (if str_eq model ""
        then []
        else append "trl:" (append consumer (append ":model:" (append model ":*"))) ∷ [])

-- The loop over the patterns; the first scan that fails ends it.
unfoldable pub keys_found : (String → List ScanReply) → List String → Option (List String)
keys_found replies [] = some []
keys_found replies (p ∷ ps) = elim (scan_keys (replies p)) [
  | none ↦ none
  | some found ↦ elim (keys_found replies ps) [ none ↦ none | some more ↦ some (found ++ more) ]
]

abbrev pub policy_keys : String → String → List String
policy_keys consumer service = key₂ "rlp:" consumer service ∷ key₂ "trlp:" consumer service ∷ []

module _ (redis : Redis) where
  open redis use {Store, get_int, del}

  -- DEL, with how many keys there were.
  unfoldable pub deleted : List String → Store → ℕ × Store
  deleted [] s = (0, s)
  deleted (k ∷ ks) s =
      let (n, after) = deleted ks (del k s) in (if present (get_int s k) then suc n else n, after)

  -- none: an error, which changes nothing.
  unfoldable pub reset_quota :
      (String → List ScanReply)
      → (dels : Bool) → String
      → String
      → String
      → Store
      → Option ℕ × Store
  unfolding deleted
  reset_quota replies dels consumer service model s =
      elim (keys_found replies (patterns consumer service model)) [
        | none ↦ (none, s)
        | some found ↦
            let (n, after) = deleted (found ++ policy_keys consumer service) s in
            if dels then (some n, after) else (none, s)
      ]

  pub data QuotaAnswer : Type 0 where
    incomplete : QuotaAnswer  -- 400
    broken : QuotaAnswer  -- 500
    reset : (deleted_keys : ℕ) → QuotaAnswer

  -- The handler of POST /-/quota/reset; `budget_keys` has "" for a model with no shared key.
  unfoldable pub handle_reset :
      (String → List ScanReply)
      → (dels : Bool) → (budget_keys : String → String) → String
      → String
      → String
      → Store
      → QuotaAnswer × Store
  unfolding reset_quota
  handle_reset replies dels budget_keys consumer service model s =
      let shared = if str_eq (budget_keys model) "" then model else budget_keys model in
      let (n, after) = reset_quota replies dels consumer service shared s in
      if str_eq consumer ""
      then (incomplete, s)
      else if str_eq service ""
      then (incomplete, s)
      else elim n [ none ↦ (broken, s) | some k ↦ (reset k, after) ]
