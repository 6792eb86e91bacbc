-- ===== src/Stream.antt =====
-- internal/llmproxy/stream_guard.go with guardrails/guardrails.go: the guard of a streamed response, that holds
-- back a window of its content. Texts are lists of bytes. The patterns are regular expressions: what they
-- find and redact is an argument. A line arrives as it is parsed, with the chunk that is forwarded for it.
pub mod Window
pub mod Cut
pub mod Blocking
pub mod Secrecy
pub mod Leaks
pub mod Examples
use gatew_ai.Base.{
  ℕ, zero, suc, ◌-◌, ◌*◌, Bool, true, false, not, ◌&&◌, ◌||◌, String, leb, ltb, ◌==◌, List, [], ◌∷◌,
  ◌++◌, length, if◌then◌else◌,
}
use gatew_ai.Base.Int.{ℤ, pos, pos_part, leb_ℤ}

abbrev pub Bytes : Type 0
Bytes = List ℕ

unfoldable pub take : ℕ → Bytes → Bytes
take zero s = []
take (suc n) [] = []
take (suc n) (b ∷ s) = b ∷ take n s

unfoldable pub drop : ℕ → Bytes → Bytes
drop zero s = s
drop (suc n) [] = []
drop (suc n) (b ∷ s) = drop n s

-- utf8.RuneStart
unfoldable pub rune_start : ℕ → Bool
rune_start b = ltb b 128 || leb 192 b

-- Whether a rune, or the end of the text, is at an index.
unfoldable pub starts_at : ℕ → Bytes → Bool
unfolding rune_start
starts_at n [] = true
starts_at zero (b ∷ s) = rune_start b
starts_at (suc n) (b ∷ s) = starts_at n s

-- The loop that goes back to a boundary of runes.
unfoldable pub snap : ℕ → Bytes → ℕ
unfolding starts_at
snap zero s = zero
snap (suc n) s = let lower = snap n s in if starts_at (suc n) s then suc n else lower

abbrev pub Span : Type 0
Span = ℕ × ℕ

unfoldable pub insert_span : Span → List Span → List Span
insert_span s [] = s ∷ []
insert_span s (t ∷ ts) =
    let later = insert_span s ts in if leb s.0 t.0 then s ∷ t ∷ ts else t ∷ later

-- sort.Slice by the start.
unfoldable pub sort_spans : List Span → List Span
unfolding insert_span
sort_spans [] = []
sort_spans (s ∷ ss) = insert_span s (sort_spans ss)

-- The loop over the sorted spans, with the last one of those that are merged.
unfoldable pub merge_from : Span → List Span → List Span
merge_from last [] = last ∷ []
merge_from last (s ∷ ss) =
    let wider = merge_from (last.0, s.1) ss in
    let same = merge_from last ss in
    let apart = merge_from s ss in
    if leb s.0 last.1 then (if ltb last.1 s.1 then wider else same) else last ∷ apart

unfoldable pub merged : List Span → List Span
unfolding merge_from
merged [] = []
merged (s ∷ ss) = merge_from s ss

unfoldable pub match_spans : List Span → List Span
unfolding sort_spans merged
match_spans found = merged (sort_spans found)

-- The loop that takes the boundary out of the spans.
unfoldable pub uncut : List Span → ℕ → ℕ
uncut [] boundary = boundary
uncut (s ∷ ss) boundary = uncut ss (if ltb s.0 boundary && ltb boundary s.1 then s.0 else boundary)

-- What was sent to the client: content in chunks, or a line of the backend.
pub data Sent : Type 0 where
  content : Bytes → Sent
  forwarded : String → Sent
  blocked : Sent
  done_marker : Sent

pub data Line : Type 0 where
  separator : Line
  other : String → Line  -- no "data:" line
  done : Line
  chunk : (text : Bytes) (has_finish has_siblings : Bool) (raw raw_no_content : String) → Line

pub record StreamGuard : Type 0 where
  pub redact : Bool
  pub window : ℕ
  pub pending : Bytes
  pub aborted : Bool
  pub violated : Bool
  pub sent : List Sent

unfoldable pub new_stream_guard : Bool → ℤ → StreamGuard
new_stream_guard redact tokens = record {
  redact = redact;
  window = (if leb_ℤ tokens (pos 0) then 64 else pos_part tokens) * 4;
  pending = [];
  aborted = false;
  violated = false;
  sent = [];
}

-- What the patterns of the enabled groups do with a text: whether the scan finds one, where they are,
-- and the redacted text with whether any was found.
pub record Patterns : Type 0 where
  pub scan : Bytes → Bool
  pub found : Bytes → List Span
  pub redacted : Bytes → Bytes × Bool

-- `accepts` says whether the client takes the next write, by the number of writes before.
module _ (patterns : Patterns) (accepts : ℕ → Bool) where
  unfoldable pub safe_redact_prefix : Bytes → ℕ → Bytes × ℕ × Bool
  unfolding match_spans uncut snap take
  safe_redact_prefix text hold =
      let boundary = snap (uncut (match_spans (patterns.found text)) (length text - hold)) text in
      let (out, matched) = patterns.redacted (take boundary text) in
      if leb (length text) hold || boundary == 0 then ([], 0, false) else (out, boundary, matched)

  unfoldable pub write : Sent → StreamGuard → Bool × StreamGuard
  write s g =
      if accepts (length g.sent) then (true, record g { sent = g.sent ++ s ∷ [] }) else (false, g)

  unfoldable pub write_content : Bytes → StreamGuard → Bool × StreamGuard
  unfolding write
  write_content [] g = (true, g)
  write_content (b ∷ s) g = write (content (b ∷ s)) g

  unfoldable pub emit_redacted : Bool → StreamGuard → Bool × StreamGuard
  unfolding write_content safe_redact_prefix
  emit_redacted final g =
      let (out, consumed, matched) = safe_redact_prefix g.pending (if final then 0 else g.window) in
      if consumed == 0
      then (true, g)
      else write_content out
          (record g { violated = g.violated || matched; pending = drop consumed g.pending })

  unfoldable pub emit_blocking : Bool → StreamGuard → Bool × StreamGuard
  unfolding write_content
  emit_blocking final g =
      let end = snap (length g.pending - (if final then 0 else g.window)) g.pending in
      if patterns.scan g.pending
      then (let told = (write blocked (record g { violated = true; aborted = true })).1 in
          (false, (write done_marker told).1))
      else if end == 0
      then (true, g)
      else write_content (take end g.pending) (record g { pending = drop end g.pending })

  unfoldable pub emit : Bool → StreamGuard → Bool × StreamGuard
  unfolding emit_redacted emit_blocking
  emit final g = elim g.pending [
    | [] ↦ (true, g)
    | b ∷ s ↦ if g.redact then emit_redacted final g else emit_blocking final g
  ]

  -- The release, then the line that is forwarded.
  unfoldable pub emit_then : Bool → Sent → StreamGuard → Bool × StreamGuard
  unfolding emit write
  emit_then final s g =
      let (on, after) = emit final g in if on then write s after else (false, after)

  unfoldable pub line : Line → StreamGuard → Bool × StreamGuard
  unfolding emit_then
  line separator g = (true, g)
  line (other raw) g = emit_then true (forwarded raw) g
  line done g = (false, (emit_then true done_marker g).1)
  line (chunk [] has_finish has_siblings raw raw_no_content) g =
      if has_finish then emit_then true (forwarded raw) g else write (forwarded raw) g
  line (chunk (b ∷ s) has_finish has_siblings raw raw_no_content) g =
      let received = record g { pending = g.pending ++ b ∷ s } in
      if has_finish
      then emit_then true (forwarded raw_no_content) received
      else if has_siblings
      then emit_then false (forwarded raw_no_content) received
      else emit false received

  -- The lines until the stream stops, and the flush that follows in every case.
  unfoldable pub guarded : List Line → StreamGuard → StreamGuard
  unfolding line
  guarded [] g = (emit true g).1
  guarded (l ∷ ls) g =
      let (on, after) = line l g in
      let later = guarded ls after in if on then later else (emit true after).1
