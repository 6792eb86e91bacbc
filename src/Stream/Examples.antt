-- ===== src/Stream/Examples.antt =====
-- stream_guard.go: the theorems for the match of one pair of bytes.
use gatew_ai.Base.{
  ℕ, ◌+◌, ◌≤◌, ◌<◌, ◌≡◌, ◌≢◌, ◌⊎◌, refl, Bool, true, false, ◌&&◌, ◌==◌, List, [], ◌∷◌, ◌++◌, length,
  if◌then◌else◌, arith, All,
}
use gatew_ai.Base.Int.{pos}
use gatew_ai.Stream.{
  Bytes, starts_at, rune_start, Line, other, done, chunk, new_stream_guard, Patterns,
  safe_redact_prefix, guarded,
}
use gatew_ai.Stream.Window.{contents}
use gatew_ai.Stream.Blocking.{Scans}
use gatew_ai.Stream.Secrecy.{flushes, new-guarded}
use gatew_ai.Stream.Cut.{Uncut, safe_redact_prefix-Uncut}
use gatew_ai.Stream.Leaks.{guarded_comment_leak}

begins : ℕ → Bytes → Bool
begins b [] = false
begins b (c ∷ s) = b == c

-- Whether 7 is followed by 8.
seven_eight : Bytes → Bool
unfolding begins
seven_eight [] = false
seven_eight (b ∷ s) = let later = seven_eight s in if b == 7 && begins 8 s then true else later

abbrev patterns : Patterns
patterns = record {
  scan = seven_eight;
  found = λ text. (1, 3) ∷ (2, 5) ∷ [];
  redacted = λ text. (text, false);
}

found_after : (u v : Bytes) → seven_eight (u ++ (7 ∷ 8 ∷ v)) ≡ true
unfolding seven_eight begins
found_after [] v = refl
found_after (b ∷ u) v = ground (arith, found_after u v)

abbrev pair : Bytes
pair = 7 ∷ 8 ∷ []

finds_pair : (u m v : Bytes) → m ≡ pair → seven_eight (u ++ (m ++ v)) ≡ true
finds_pair u m v h = rw h (found_after u v)

pair_nonempty : (m : Bytes) → m ≡ pair → 0 < length m
pair_nonempty m h = ground (arith, h)

abbrev scans : Scans patterns
scans = record { IsMatch = λ m. m ≡ pair; nonempty = pair_nonempty; finds = finds_pair }

abbrev always : ℕ → Bool
always n = true

abbrev body : List Line
body = chunk (1 ∷ 7 ∷ []) false false "" "" ∷ chunk (9 ∷ []) false true "" "" ∷ []

steady : All (λ l. flushes l ≡ false) body
unfolding flushes
steady = ground arith

window_four : (new_stream_guard false (pos 1)).window ≡ 4
unfolding new_stream_guard
window_four = refl

new-guarded_example :
    contents (guarded patterns always (body ++ done ∷ []) (new_stream_guard false (pos 1))).sent
    ≢ (1 ∷ []) ++ (pair ++ [])
new-guarded_example =
    new-guarded patterns scans 4 always (λ n. refl) (pos 1) body done window_four steady (1 ∷ [])
      pair [] refl (omega arith)

abbrev text : Bytes
text = 1 ∷ 2 ∷ 3 ∷ 4 ∷ 5 ∷ 6 ∷ []

ends : All (λ t. starts_at t.1 text ≡ true) (patterns.found text)
unfolding starts_at rune_start
ends = ground arith

safe_redact_prefix-Uncut_example :
    let (out, consumed, matched) = safe_redact_prefix patterns always text 3 in
    All (Uncut consumed) (patterns.found text)
    × ((consumed ≡ 0) ⊎ (consumed + 3 ≤ length text))
    × ((consumed ≡ 0) ⊎ (starts_at consumed text ≡ true))
safe_redact_prefix-Uncut_example = safe_redact_prefix-Uncut patterns always text 3 ends

matched : seven_eight ((7 ∷ []) ++ 8 ∷ []) ≡ true
matched = found_after [] []

seven_alone : seven_eight (7 ∷ []) ≡ false
unfolding seven_eight begins
seven_alone = refl

eight_alone : seven_eight (8 ∷ []) ≡ false
unfolding seven_eight begins
eight_alone = refl

fits : (b : ℕ) → length (b ∷ []) ≤ (new_stream_guard false (pos 1)).window
unfolding new_stream_guard
fits b = omega arith

-- The pair gets to the client around a comment.
guarded_comment_leak_example :
    contents
      (guarded patterns always
        (chunk (7 ∷ []) false false "" ""
          ∷ other ": keepalive"
          ∷ chunk (8 ∷ []) false false "" ""
          ∷ done
          ∷ [])
        (new_stream_guard false (pos 1))).sent
    ≡ (7 ∷ []) ++ 8 ∷ []
guarded_comment_leak_example =
    guarded_comment_leak patterns always (λ n. refl) (pos 1) 7 8 [] [] ": keepalive" "" ""
      seven_alone eight_alone (fits 7) (fits 8)
