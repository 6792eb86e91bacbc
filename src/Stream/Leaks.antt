-- ===== src/Stream/Leaks.antt =====
-- stream_guard.go: what block mode does with lines that are no content, and after its notice.
use gatew_ai.Base.{
  ℕ, suc, ◌-◌, ◌≤◌, ◌≡◌, refl, ap, Bool, true, false, String, List, [], ◌∷◌, ◌++◌, length, arith,
}
use mathlib.Core.List.{append-nil}
use gatew_ai.Base.Int.{ℤ}
use gatew_ai.Stream.{
  Bytes, take, snap, content, forwarded, blocked, done_marker, Line, other, done, chunk,
  StreamGuard, new_stream_guard, Patterns, write, write_content, emit_blocking, emit, emit_then,
  line, guarded,
}
use gatew_ai.Stream.Window.{contents, snap-length, drop-length}

module _ (patterns : Patterns) (accepts : ℕ → Bool) (takes : (n : ℕ) → accepts n ≡ true) where
  notice :
      (final : Bool) (g : StreamGuard) (b : ℕ) (s : Bytes)
      → g.redact ≡ false
      → g.pending ≡ b ∷ s
      → patterns.scan g.pending ≡ true
      → emit patterns accepts final g ≡ (
        false,
        record g {
          violated = true;
          aborted = true;
          sent = (g.sent ++ blocked ∷ []) ++ done_marker ∷ [];
        },
      )
  unfolding emit emit_blocking write
  notice final g b s m e f =
      ground (arith, m, e, f, takes (length g.sent), takes (length (g.sent ++ blocked ∷ [])))

  noticed : StreamGuard → StreamGuard
  noticed g = record g {
    violated = true;
    aborted = true;
    sent = (g.sent ++ blocked ∷ []) ++ done_marker ∷ [];
  }

  twice :
      (g : StreamGuard) (b : ℕ) (s : Bytes)
      → g.redact ≡ false
      → g.pending ≡ b ∷ s
      → patterns.scan g.pending ≡ true
      → (emit patterns accepts true (emit patterns accepts false g).1).1.sent
        ≡ (((g.sent ++ blocked ∷ []) ++ done_marker ∷ []) ++ blocked ∷ []) ++ done_marker ∷ []
  unfolding noticed
  twice g b s m e f = rw (notice false g b s m e f, notice true (noticed g) b s m e f) refl

  cons_of : (p : Bytes) (b : ℕ) (s : Bytes) → (c : ℕ) × (t : Bytes) × (p ++ b ∷ s ≡ c ∷ t)
  cons_of [] b s = (b, s, refl)
  cons_of (c ∷ p) b s = (c, p ++ b ∷ s, refl)

  -- In block mode, for a client that takes every write: when a chunk completes a match, the notice and
  -- the end marker are sent twice, as the flush after the loop scans the same text again.
  pub guarded_notice_twice :
      (g : StreamGuard) (b : ℕ) (s : Bytes) (raw : String) (ls : List Line)
      → g.redact ≡ false
      → patterns.scan (g.pending ++ b ∷ s) ≡ true
      → (guarded patterns accepts (chunk (b ∷ s) false false raw raw ∷ ls) g).sent
        ≡ (((g.sent ++ blocked ∷ []) ++ done_marker ∷ []) ++ blocked ∷ []) ++ done_marker ∷ []
  unfolding guarded line
  guarded_notice_twice g b s raw ls m f =
      let received = record g { pending = g.pending ++ b ∷ s } in
      let (c, t, e) = cons_of g.pending b s in
      let stops = notice false received c t m e f in ground (arith, stops, twice received c t m e f)

  take-length : (s : Bytes) → take (length s) s ≡ s
  unfolding take
  take-length [] = refl
  take-length (b ∷ s) = ap (λ t. b ∷ t) (take-length s)

  held_back :
      (g : StreamGuard) (b : ℕ) (s : Bytes)
      → g.redact ≡ false
      → g.pending ≡ b ∷ s
      → patterns.scan g.pending ≡ false
      → length g.pending ≤ g.window
      → emit patterns accepts false g ≡ (true, g)
  unfolding emit emit_blocking snap
  held_back g b s m e f l =
      let none_over : length g.pending - g.window ≡ 0 = omega (arith, l) in
      ground (arith, m, e, f, none_over)

  flushed :
      (g : StreamGuard) (b : ℕ) (s : Bytes)
      → g.redact ≡ false
      → g.pending ≡ b ∷ s
      → patterns.scan g.pending ≡ false
      → emit patterns accepts true g
        ≡ (true, record g { pending = []; sent = g.sent ++ content (b ∷ s) ∷ [] })
  unfolding emit emit_blocking write_content write
  flushed g b s m e f =
      let whole : suc (length s) - 0 ≡ suc (length s) = omega arith in
      ground (
        arith,
        m,
        e,
        f,
        whole,
        takes (length g.sent),
        snap-length (b ∷ s),
        take-length (b ∷ s),
        drop-length (b ∷ s),
      )

  -- In block mode, for a client that takes every write: two pieces of content that fit the window, with no match in
  -- either, are sent in full if a line that is no "data:" line, such as a comment, comes between them; also
  -- where the two together make a match.
  pub guarded_comment_leak :
      (tokens : ℤ) (x y : ℕ) (a b : Bytes) (raw data_a data_b : String)
      → patterns.scan (x ∷ a) ≡ false
      → patterns.scan (y ∷ b) ≡ false
      → length (x ∷ a) ≤ (new_stream_guard false tokens).window
      → length (y ∷ b) ≤ (new_stream_guard false tokens).window
      → contents
          (guarded patterns accepts
            (chunk (x ∷ a) false false data_a data_a
              ∷ other raw
              ∷ chunk (y ∷ b) false false data_b data_b
              ∷ done
              ∷ [])
            (new_stream_guard false tokens)).sent
        ≡ (x ∷ a) ++ y ∷ b
  unfolding guarded line emit_then write contents new_stream_guard emit
  guarded_comment_leak tokens x y a b raw data_a data_b f k l m =
      let g = new_stream_guard false tokens in
      let one = record g { pending = x ∷ a } in
      let two = record g { pending = y ∷ b; sent = content (x ∷ a) ∷ forwarded raw ∷ [] } in
      rw
        (
          held_back one x a refl refl f l,
          flushed one x a refl refl f,
          takes 1,
          held_back two y b refl refl k m,
          flushed two y b refl refl k,
          takes 3,
          append-nil (y ∷ b),
        )
        refl
