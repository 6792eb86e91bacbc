-- ===== src/Stream/Secrecy.antt =====
-- stream_guard.go: no match that fits the window gets to the client over a whole stream in block mode.
use gatew_ai.Base.{
  ℕ, ◌≤◌, ◌≡◌, ◌≢◌, refl, ap, ap₂, sym, subst, ◌∙◌, ◌⊎◌, inl, inr, Bool, true, false, List, [], ◌∷◌,
  ◌++◌, length, arith, All, Bool-cases, List-cases, length-append,
}
use gatew_ai.Base.Int.{ℤ}
use mathlib.Core.List.{append-nil}
use gatew_ai.Stream.{
  Bytes, Sent, forwarded, done_marker, Line, separator, other, done, chunk, StreamGuard,
  new_stream_guard, Patterns, write, emit_blocking, emit, emit_then, line, guarded,
}
use gatew_ai.Stream.Window.{contents}
use gatew_ai.Stream.Blocking.{
  Scans, IsClean, prefix-IsClean, IsSafe, IsReceived, IsEnded, received, quiet, stopped,
  released_all, released_window,
}

-- Whether all that is pending is released before the end of the stream.
unfoldable pub flushes : Line → Bool
flushes separator = false
flushes (other raw) = true
flushes done = false
flushes (chunk text has_finish has_siblings raw raw_no_content) = has_finish

module _ (patterns : Patterns) (scans : Scans patterns) (w : ℕ) (accepts : ℕ → Bool)
    (takes : (n : ℕ) → accepts n ≡ true) where
  emit_nothing :
      (final : Bool) (g : StreamGuard) → g.pending ≡ [] → emit patterns accepts final g ≡ (true, g)
  unfolding emit
  emit_nothing final g e = rw e refl

  emit_something :
      (final : Bool) (g : StreamGuard) (b : ℕ) (s : Bytes)
      → g.redact ≡ false
      → g.pending ≡ b ∷ s
      → emit patterns accepts final g ≡ emit_blocking patterns accepts final g
  unfolding emit
  emit_something final g b s m e = ground (arith, m, e)

  final_emit :
      (g : StreamGuard)
      → IsReceived patterns scans w g
      → IsEnded patterns scans w (emit patterns accepts true g).1
  final_emit g h = elim (List-cases g.pending) [
    | inl e ↦ rw (emit_nothing true g e) (record { mode = h.mode; clean = h.clean; rest = inr e })
    | inr (b, s, e) ↦ elim (Bool-cases (patterns.scan g.pending)) [
      | inl f ↦
          let (_, sent, p, r) = stopped patterns scans w accepts takes true g f in
          rw (emit_something true g b s h.mode e) (record {
            mode = r ∙ h.mode;
            clean = subst (IsClean patterns scans w) (sym sent) h.clean;
            rest = inl (ap patterns.scan p ∙ f);
          })
      | inr f ↦
          let (_, kept, r, _, p) = released_all patterns scans w accepts takes g f in
          let all_clean = subst (IsClean patterns scans w) (sym kept) (h.scanned f) in
          rw (emit_something true g b s h.mode e) (record {
            mode = r ∙ h.mode;
            clean = prefix-IsClean patterns scans w _ _ all_clean;
            rest = inr p;
          })
    ]
  ]

  steady_emit :
      (g : StreamGuard)
      → IsReceived patterns scans w g
      → let (on, after) = emit patterns accepts false g in
        ((on ≡ true) × IsSafe patterns scans w after)
        ⊎ ((on ≡ false) × IsEnded patterns scans w after)
  steady_emit g h = elim (List-cases g.pending) [
    | inl e ↦
        let nothing = ap (λ t. contents g.sent ++ t) e ∙ append-nil (contents g.sent) in
        rw (emit_nothing false g e) (
          inl (
            refl,
            record {
              mode = h.mode;
              size = h.size;
              clean = subst (IsClean patterns scans w) (sym nothing) h.clean;
              held = h.unreleased;
            },
          ))
    | inr (b, s, e) ↦ elim (Bool-cases (patterns.scan g.pending)) [
      | inl f ↦
          let (on, sent, p, r) = stopped patterns scans w accepts takes false g f in
          rw (emit_something false g b s h.mode e) (
            inr (
              on,
              record {
                mode = r ∙ h.mode;
                clean = subst (IsClean patterns scans w) (sym sent) h.clean;
                rest = inl (ap patterns.scan p ∙ f);
              },
            ))
      | inr f ↦
          let (on, kept, r, v, held) = released_window patterns scans w accepts takes g f in
          rw (emit_something false g b s h.mode e) (
            inl (
              on,
              record {
                mode = r ∙ h.mode;
                size = v ∙ h.size;
                clean = subst (IsClean patterns scans w) (sym kept) (h.scanned f);
                held = elim held [
                  | inl l ↦ inl (ground (arith, l, h.size))
                  | inr (same, p) ↦ elim h.unreleased [
                    | inl l ↦ inl (ground (arith, p, l))
                    | inr e ↦ inr (same ∙ e)
                  ]
                ];
              },
            ))
    ]
  ]

  -- Writing what is no content keeps a state.
  after_quiet :
      (l : Sent) (g : StreamGuard)
      → contents (l ∷ []) ≡ []
      → IsSafe patterns scans w g
      → IsSafe patterns scans w (write patterns accepts l g).1
  after_quiet l g e h =
      let (_, sent, p, r, v) = quiet patterns scans w accepts takes l g e in
      record {
        mode = r ∙ h.mode;
        size = v ∙ h.size;
        clean = subst (IsClean patterns scans w) (sym (ap₂ (λ a b. a ++ b) sent p)) h.clean;
        held = elim h.held [ inl l ↦ inl (ground (arith, p, l)) | inr e ↦ inr (sent ∙ e) ];
      }

  quiet_end :
      (l : Sent) (g : StreamGuard)
      → contents (l ∷ []) ≡ []
      → IsEnded patterns scans w g
      → IsEnded patterns scans w (write patterns accepts l g).1
  quiet_end l g e h =
      let (_, sent, p, r, v) = quiet patterns scans w accepts takes l g e in
      record {
        mode = r ∙ h.mode;
        clean = subst (IsClean patterns scans w) (sym sent) h.clean;
        rest = elim h.rest [ inl f ↦ inl (ap patterns.scan p ∙ f) | inr n ↦ inr (p ∙ n) ];
      }

  final_then :
      (l : Sent) (g : StreamGuard)
      → contents (l ∷ []) ≡ []
      → IsReceived patterns scans w g
      → IsEnded patterns scans w (emit_then patterns accepts true l g).1
  unfolding emit_then
  final_then l g e h =
      let after = emit patterns accepts true g in
      elim (Bool-cases after.0) [
        | inl on ↦ rw on (quiet_end l after.1 e (final_emit g h))
        | inr off ↦ rw off (final_emit g h)
      ]

  safe_received : (g : StreamGuard) → IsSafe patterns scans w g → IsReceived patterns scans w g
  safe_received g h = record {
    mode = h.mode;
    size = h.size;
    clean = prefix-IsClean patterns scans w (contents g.sent) g.pending h.clean;
    scanned = λ f. h.clean;
    unreleased = h.held;
  }

  abbrev Goes : Bool × StreamGuard → Type 0
  Goes (on, after) =
      ((on ≡ true) × IsSafe patterns scans w after)
      ⊎ ((on ≡ false) × IsEnded patterns scans w after)

  steady_then :
      (l : Sent) (g : StreamGuard)
      → contents (l ∷ []) ≡ []
      → IsReceived patterns scans w g
      → Goes (emit_then patterns accepts false l g)
  unfolding emit_then
  steady_then l g e h =
      let after = emit patterns accepts false g in
      elim (steady_emit g h) [
        | inl (on, s) ↦
            rw on (
              inl ((quiet patterns scans w accepts takes l after.1 e).0, after_quiet l after.1 e s))
        | inr (off, n) ↦ rw off (inr (refl, n))
      ]

  steady_line :
      (l : Line) (g : StreamGuard)
      → flushes l ≡ false
      → IsSafe patterns scans w g
      → Goes (line patterns accepts l g)
  unfolding line flushes contents
  steady_line separator g f h = inl (refl, h)
  steady_line (other raw) g f h = absurd (ground (arith, f))
  steady_line done g f h = inr (refl, final_then done_marker g refl (safe_received g h))
  steady_line (chunk [] has_finish has_siblings raw raw_no_content) g f h = rw f (
      inl (
        (quiet patterns scans w accepts takes (forwarded raw) g refl).0,
        after_quiet (forwarded raw) g refl h,
      ))
  steady_line (chunk (b ∷ s) has_finish false raw raw_no_content) g f h = rw f (
      steady_emit (record g { pending = g.pending ++ b ∷ s })
        (received patterns scans w g (b ∷ s) h))
  steady_line (chunk (b ∷ s) has_finish true raw raw_no_content) g f h = rw f (
      steady_then (forwarded raw_no_content) (record g { pending = g.pending ++ b ∷ s }) refl
        (received patterns scans w g (b ∷ s) h))

  -- Any line: the stream goes on safely, or nothing is pending that was not scanned.
  any_line :
      (l : Line) (g : StreamGuard)
      → IsSafe patterns scans w g
      → IsSafe patterns scans w (line patterns accepts l g).1
        ⊎ IsEnded patterns scans w (line patterns accepts l g).1
  unfolding line flushes contents
  any_line separator g h = inl h
  any_line (other raw) g h = inr (final_then (forwarded raw) g refl (safe_received g h))
  any_line done g h = inr (final_then done_marker g refl (safe_received g h))
  any_line (chunk [] true has_siblings raw raw_no_content) g h =
      inr (final_then (forwarded raw) g refl (safe_received g h))
  any_line (chunk (b ∷ s) true has_siblings raw raw_no_content) g h = inr (
      final_then (forwarded raw_no_content) (record g { pending = g.pending ++ b ∷ s }) refl
        (received patterns scans w g (b ∷ s) h))
  any_line (chunk text false has_siblings raw raw_no_content) g h =
      elim (steady_line (chunk text false has_siblings raw raw_no_content) g refl h) [
        | inl (on, s) ↦ inl s
        | inr (off, n) ↦ inr n
      ]

  ended_emit :
      (g : StreamGuard)
      → IsEnded patterns scans w g
      → IsClean patterns scans w (contents (emit patterns accepts true g).1.sent)
  ended_emit g h = elim (List-cases g.pending) [
    | inl e ↦ rw (emit_nothing true g e) h.clean
    | inr (b, s, e) ↦
        let f : patterns.scan g.pending ≡ true = ground (arith, e, h.rest) in
        let (_, sent, _, _) = stopped patterns scans w accepts takes true g f in
        rw (emit_something true g b s h.mode e)
          (subst (IsClean patterns scans w) (sym sent) h.clean)
  ]

  safe_emit :
      (g : StreamGuard)
      → IsSafe patterns scans w g
      → IsClean patterns scans w (contents (emit patterns accepts true g).1.sent)
  safe_emit g h = (final_emit g (safe_received g h)).clean

  guarded-IsClean :
      (ls : List Line) (last : Line) (g : StreamGuard)
      → All (λ l. flushes l ≡ false) ls
      → IsSafe patterns scans w g
      → IsClean patterns scans w (contents (guarded patterns accepts (ls ++ last ∷ []) g).sent)
  unfolding guarded
  guarded-IsClean [] last g f h =
      let after = line patterns accepts last g in
      let out : IsClean patterns scans w (contents (emit patterns accepts true after.1).1.sent) =
        elim (any_line last g h) [ inl s ↦ safe_emit after.1 s | inr n ↦ ended_emit after.1 n ] in
      elim (Bool-cases after.0) [ inl on ↦ rw on out | inr off ↦ rw off out ]
  guarded-IsClean (l ∷ ls) last g f h = elim (steady_line l g f.0 h) [
    | inl (on, s) ↦ rw on (guarded-IsClean ls last (line patterns accepts l g).1 f.1 s)
    | inr (off, n) ↦ rw off (ended_emit (line patterns accepts l g).1 n)
  ]

  nothing-IsClean : IsClean patterns scans w []
  nothing-IsClean u m v k l e =
      let sizes : length {A = ℕ} [] ≡ length (u ++ (m ++ v)) = ap length e in
      omega (arith, sizes, scans.nonempty m k, length-append u (m ++ v), length-append m v)

  -- In block mode, with a scan that finds a match wherever it stands and a client that takes every
  -- write: over any lines of which only the last may be an end of the content (or no "data:" line), no match that
  -- fits the window is anywhere in the content that is sent, however the lines cut it.
  pub new-guarded :
      (tokens : ℤ) (ls : List Line) (last : Line)
      → (new_stream_guard false tokens).window ≡ w
      → All (λ l. flushes l ≡ false) ls
      → (u m v : Bytes) → scans.IsMatch m
      → length m ≤ w
      → contents (guarded patterns accepts (ls ++ last ∷ []) (new_stream_guard false tokens)).sent
        ≢ u ++ (m ++ v)
  unfolding new_stream_guard contents
  new-guarded tokens ls last size f =
      guarded-IsClean ls last (new_stream_guard false tokens) f
        (record { mode = refl; size = size; clean = nothing-IsClean; held = inr refl })
