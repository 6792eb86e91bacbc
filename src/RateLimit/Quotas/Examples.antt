-- ===== src/RateLimit/Quotas/Examples.antt =====
-- ratelimit.go: a reset for a consumer that has used up the calls of a minute.
use gatew_ai.Base.{
  ◌||◌, ◌≡◌, refl, sym, none, some, String, List, [], ◌∷◌, update, eq_iff, Bool-cases, inl, inr,
  str_eq, arith, true, false, prefix-ne, ◌≢◌, ==-ne,
}
use gatew_ai.Base.Int.{pos, ◌+ℤ◌}
use gatew_ai.Redis.Memory.{Memory, memory, empty}
use gatew_ai.RateLimit.{resolve_identity, key₃}
use gatew_ai.RateLimit.Window.{run_window, window_result}
use gatew_ai.RateLimit.Requests.{check}
use gatew_ai.RateLimit.Requests.Verdicts.{is_error}
use gatew_ai.RateLimit.Tokens.{check_tokens, check_processing_time, token_key, processing_key}
use gatew_ai.RateLimit.Examples.{minute, reachable, limiter, premium}
use gatew_ai.RateLimit.Quotas.{
  ScanReply, batch, scan_keys, patterns, keys_found, deleted, reset_quota,
}
use gatew_ai.RateLimit.Quotas.Fresh.{Finds}
use gatew_ai.RateLimit.Quotas.Restored.{IsBudget, allowed-reset_quota, within-reset_quota}

abbrev five_calls : Memory
five_calls =
    update "rl:ada:audio:premium" (some (record { value = pos 5; left = pos 30 }))
      (update "rl:ada:audio:chat:*" (some (record { value = pos 5; left = pos 30 })) empty)

abbrev both_keys : List String
both_keys = "rl:ada:audio:premium" ∷ "rl:ada:audio:chat:*" ∷ []

abbrev replies : String → List ScanReply
replies = update "rl:ada:audio:*" (batch [] 7 ∷ batch both_keys 0 ∷ []) (λ _. batch [] 0 ∷ [])

refused_before :
    (check memory minute limiter reachable premium "audio" five_calls).0.result.allowed ≡ false
unfolding check resolve_identity run_window window_result ◌+ℤ◌
refused_before = refl

two_deleted : reset_quota memory replies true "ada" "audio" "" five_calls ≡ (
  some 2,
  (deleted memory
      ("rl:ada:audio:premium" ∷ "rl:ada:audio:chat:*" ∷ "rlp:ada:audio" ∷ "trlp:ada:audio" ∷ [])
      five_calls).1,
)
unfolding reset_quota keys_found scan_keys patterns deleted
two_deleted = refl

config-IsBudget : IsBudget (resolve_identity limiter premium "audio").config
unfolding resolve_identity
config-IsBudget = record { rate = refl; token_rate = refl; time = refl }

calls-Finds : Finds memory replies five_calls "rl:" "ada" "audio"
unfolding scan_keys
calls-Finds x found h =
    let key = key₃ "rl:" "ada" "audio" x in
    elim (Bool-cases (str_eq "rl:ada:audio:premium" key)) [
      | inl e ↦ inr (ground (arith, e, h))
      | inr e ↦ elim (Bool-cases (str_eq "rl:ada:audio:chat:*" key)) [
        | inl f ↦ inr (ground (arith, e, f, h))
        | inr f ↦ inl (ground (arith, e, f))
      ]
    ]

-- A key that begins with another prefix is not there.
absent_other :
    (key : String)
    → key ≢ "rl:ada:audio:premium"
    → key ≢ "rl:ada:audio:chat:*"
    → memory.get_int five_calls key ≡ none
absent_other key p q = ground (
  arith,
  ==-ne "rl:ada:audio:premium" key (λ e. p (sym e)),
  ==-ne "rl:ada:audio:chat:*" key (λ e. q (sym e)),
)

tokens-Finds : Finds memory replies five_calls "trl:" "ada" "audio"
tokens-Finds x found h =
    let apart : "trl:" ≢ "rl:a" = ground (arith, eq_iff "trl:" "rl:a") in
    inl (
      absent_other (key₃ "trl:" "ada" "audio" x)
        (prefix-ne "trl:" "rl:a" "da:audio:premium" _ "" refl apart)
        (prefix-ne "trl:" "rl:a" "da:audio:chat:*" _ "" refl apart))

time-Finds : Finds memory replies five_calls "ptrl:" "ada" "audio"
time-Finds x found h =
    let apart : "ptrl:" ≢ "rl:ad" = ground (arith, eq_iff "ptrl:" "rl:ad") in
    inl (
      absent_other (key₃ "ptrl:" "ada" "audio" x)
        (prefix-ne "ptrl:" "rl:ad" "a:audio:premium" _ "" refl apart)
        (prefix-ne "ptrl:" "rl:ad" "a:audio:chat:*" _ "" refl apart))

abbrev fresh : Memory
fresh =
    (deleted memory
      ("rl:ada:audio:premium" ∷ "rl:ada:audio:chat:*" ∷ "rlp:ada:audio" ∷ "trlp:ada:audio" ∷ [])
      five_calls).1

allowed-reset_quota_example :
    ((is_error (check memory minute limiter reachable premium "audio" fresh).0.error
        || (check memory minute limiter reachable premium "audio" fresh).0.result.allowed)
      ≡ true)
    × ((check_tokens memory minute limiter reachable premium "audio" fresh).result.allowed ≡ true)
    × ((check_processing_time memory minute limiter reachable premium "audio" fresh).result.allowed
        ≡ true)
unfolding resolve_identity
allowed-reset_quota_example =
    allowed-reset_quota memory minute reachable replies limiter premium "audio" "" five_calls fresh
      2 config-IsBudget (λ cfg e. ground (arith, e)) calls-Finds tokens-Finds time-Finds two_deleted

-- The counter of a consumer "ada:audio" is among those that the scan for "ada" and "audio" finds.
within-reset_quota_example :
    (memory.get_int fresh "rl:ada:audio:chat:*" ≡ none)
    × (memory.get_int fresh (token_key "ada:audio" "chat" "*") ≡ none)
    × (memory.get_int fresh (processing_key "ada:audio" "chat" "*") ≡ none)
within-reset_quota_example =
    within-reset_quota memory replies "ada" "audio" "" "chat" "*" five_calls fresh 2 calls-Finds
      tokens-Finds time-Finds two_deleted
