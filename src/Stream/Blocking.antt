-- ===== src/Stream/Blocking.antt =====
-- stream_guard.go: in block mode, no match that fits the window gets to the client.
use gatew_ai.Base.{
  ℕ, ◌-◌, ◌≤◌, ◌<◌, ◌≡◌, ◌≢◌, refl, ap, ap₂, sym, ◌∙◌, ◌⊎◌, inl, inr, Bool, true, false, [], ◌∷◌,
  ◌++◌, length, length-append, leb, ◌==◌, arith, Bool-cases, leb→le,
}
use mathlib.Core.List.{append_assoc, append-nil}
use gatew_ai.Stream.{
  Bytes, take, drop, snap, Sent, content, blocked, done_marker, StreamGuard, Patterns, write,
  write_content, emit_blocking,
}
use gatew_ai.Stream.Window.{
  take-drop, length-drop, snap_le, snap-length, drop-length, cut_before, contents, contents-append,
}

-- What the scan is to find: it finds a match, which is not empty, wherever it stands in a text.
pub record Scans (patterns : Patterns) : Type 1 where
  pub IsMatch : Bytes → Type 0
  pub nonempty : (m : Bytes) → IsMatch m → 0 < length m
  pub finds : (u m v : Bytes) → IsMatch m → patterns.scan (u ++ (m ++ v)) ≡ true

module _ (patterns : Patterns) (scans : Scans patterns) where
  empty : (s : Bytes) → length s ≡ 0 → s ≡ []
  empty [] h = refl
  empty (b ∷ s) h = absurd (omega (arith, h))

  -- The text has no match of at most `w` bytes.
  abbrev pub IsClean : ℕ → Bytes → Type 0
  IsClean w s = (u m v : Bytes) → scans.IsMatch m → length m ≤ w → s ≢ u ++ (m ++ v)

  pub prefix-IsClean : (w : ℕ) (a b : Bytes) → IsClean w (a ++ b) → IsClean w a
  prefix-IsClean w a b h u m v k l e =
      h u m (v ++ b) k l
        (ap (λ t. t ++ b) e ∙ append_assoc u (m ++ v) b ∙ ap (λ t. u ++ t) (append_assoc m v b))

  -- A match in a longer text ends in what is new, and so begins in the window.
  longer-IsClean :
      (w : ℕ) (a p c : Bytes)
      → IsClean w (a ++ p)
      → (w ≤ length p) ⊎ (a ≡ [])
      → patterns.scan (p ++ c) ≡ false
      → IsClean w (a ++ (p ++ c))
  longer-IsClean w a p c h held f u m v k l e = elim (Bool-cases (leb (length a) (length u))) [
    | inl q ↦
        let (t, x, y) = cut_before u (m ++ v) a (p ++ c) (sym e) (leb→le (length a) (length u) q) in
        absurd (ground (arith, f, y, scans.finds t m v k))
    | inr q ↦ elim held [
      | inr none_released ↦ absurd (ground (arith, q, none_released))
      | inl enough ↦
          let regroup = append_assoc a p c ∙ e ∙ sym (append_assoc u m v) in
          let within : length (u ++ m) ≤ length (a ++ p) =
            ground (arith, q, enough, l, length-append u m, length-append a p) in
          let (t, x, y) = cut_before (a ++ p) c (u ++ m) v regroup within in
          absurd (h u m t k l (x ∙ append_assoc u m t))
    ]
  ]

  module _ (w : ℕ) where
    -- Between two lines: what was received is clean, and the window is held.
    pub record IsSafe (g : StreamGuard) : Type 0 where
      pub mode : g.redact ≡ false
      pub size : g.window ≡ w
      pub clean : IsClean w (contents g.sent ++ g.pending)
      pub held : (w ≤ length g.pending) ⊎ (contents g.sent ≡ [])

    -- Before a release: what is pending may hold a match.
    pub record IsReceived (g : StreamGuard) : Type 0 where
      pub mode : g.redact ≡ false
      pub size : g.window ≡ w
      pub clean : IsClean w (contents g.sent)
      pub scanned : patterns.scan g.pending ≡ false → IsClean w (contents g.sent ++ g.pending)
      pub unreleased : (w ≤ length g.pending) ⊎ (contents g.sent ≡ [])

    -- The stream has stopped.
    pub record IsEnded (g : StreamGuard) : Type 0 where
      pub mode : g.redact ≡ false
      pub clean : IsClean w (contents g.sent)
      pub rest : (patterns.scan g.pending ≡ true) ⊎ (g.pending ≡ [])

    pub received :
        (g : StreamGuard) (c : Bytes)
        → IsSafe g
        → IsReceived (record g { pending = g.pending ++ c })
    received g c h = record {
      mode = h.mode;
      size = h.size;
      clean = prefix-IsClean w (contents g.sent) g.pending h.clean;
      scanned = λ f. longer-IsClean w (contents g.sent) g.pending c h.clean h.held f;
      unreleased = elim h.held [
        | inl l ↦ inl (omega (arith, l, length-append g.pending c))
        | inr e ↦ inr e
      ];
    }

    module _ (accepts : ℕ → Bool) (takes : (n : ℕ) → accepts n ≡ true) where
      written :
          (s : Bytes) (g : StreamGuard)
          → let (on, after) = write_content patterns accepts s g in
            (on ≡ true)
            × (contents after.sent ≡ contents g.sent ++ s)
            × (after.pending ≡ g.pending)
            × (after.redact ≡ g.redact)
            × (after.window ≡ g.window)
      unfolding write_content write contents
      written [] g = (refl, sym (append-nil (contents g.sent)), refl, refl, refl)
      written (b ∷ s) g =
          let added =
            contents-append g.sent (content (b ∷ s) ∷ [])
            ∙ ap (λ t. contents g.sent ++ t) (append-nil (b ∷ s)) in
          rw (takes (length g.sent)) (refl, added, refl, refl, refl)

      -- A line without content leaves the content as it is.
      pub quiet :
          (l : Sent) (g : StreamGuard)
          → contents (l ∷ []) ≡ []
          → let (on, after) = write patterns accepts l g in
            (on ≡ true)
            × (contents after.sent ≡ contents g.sent)
            × (after.pending ≡ g.pending)
            × (after.redact ≡ g.redact)
            × (after.window ≡ g.window)
      unfolding write
      quiet l g e =
          let same =
            contents-append g.sent (l ∷ [])
            ∙ ap (λ t. contents g.sent ++ t) e
            ∙ append-nil (contents g.sent) in
          rw (takes (length g.sent)) (refl, same, refl, refl, refl)

      -- A scan that finds a match sends the notice, and no content.
      pub stopped :
          (final : Bool) (g : StreamGuard)
          → patterns.scan g.pending ≡ true
          → let (on, after) = emit_blocking patterns accepts final g in
            (on ≡ false)
            × (contents after.sent ≡ contents g.sent)
            × (after.pending ≡ g.pending)
            × (after.redact ≡ g.redact)
      unfolding emit_blocking contents
      stopped final g f =
          let found = record g { violated = true; aborted = true } in
          let (_, told, p, r, _) = quiet blocked found refl in
          let (_, marked, q, t, _) =
            quiet done_marker (write patterns accepts blocked found).1 refl in
          rw f (refl, marked ∙ told, q ∙ p, t ∙ r)

      passed :
          (end : ℕ) (g : StreamGuard)
          → let (on, after) =
              write_content patterns accepts
                (take end g.pending)
                (record g { pending = drop end g.pending }) in
            (on ≡ true)
            × (contents after.sent ++ after.pending ≡ contents g.sent ++ g.pending)
            × (after.redact ≡ g.redact)
            × (after.window ≡ g.window)
            × (after.pending ≡ drop end g.pending)
      passed end g =
          let (on, sent, pending, r, w) =
            written (take end g.pending) (record g { pending = drop end g.pending }) in
          (
            on,
            ap₂ (λ a b. a ++ b) sent pending
                ∙ append_assoc (contents g.sent) (take end g.pending) (drop end g.pending)
                ∙ ap (λ t. contents g.sent ++ t) (take-drop end g.pending),
            r,
            w,
            pending,
          )

      pub released_all :
          (g : StreamGuard)
          → patterns.scan g.pending ≡ false
          → let (on, after) = emit_blocking patterns accepts true g in
            (on ≡ true)
            × (contents after.sent ++ after.pending ≡ contents g.sent ++ g.pending)
            × (after.redact ≡ g.redact)
            × (after.window ≡ g.window)
            × (after.pending ≡ [])
      unfolding emit_blocking
      released_all g f =
          let end = snap (length g.pending - 0) g.pending in
          let whole : length g.pending - 0 ≡ length g.pending = omega arith in
          let total : end ≡ length g.pending =
            ap (λ n. snap n g.pending) whole ∙ snap-length g.pending in
          let (on, kept, r, v, p) = passed end g in
          let none_left = p ∙ ap (λ n. drop n g.pending) total ∙ drop-length g.pending in
          elim (Bool-cases (end == 0)) [
            | inl z ↦ rw (f, z) (refl, refl, refl, refl, empty g.pending (ground (arith, z, total)))
            | inr z ↦ rw (f, z) (on, kept, r, v, none_left)
          ]

      pub released_window :
          (g : StreamGuard)
          → patterns.scan g.pending ≡ false
          → let (on, after) = emit_blocking patterns accepts false g in
            (on ≡ true)
            × (contents after.sent ++ after.pending ≡ contents g.sent ++ g.pending)
            × (after.redact ≡ g.redact)
            × (after.window ≡ g.window)
            × ((g.window ≤ length after.pending)
                ⊎ ((contents after.sent ≡ contents g.sent) × (after.pending ≡ g.pending)))
      unfolding emit_blocking
      released_window g f =
          let end = snap (length g.pending - g.window) g.pending in
          elim (Bool-cases (end == 0)) [
            | inl z ↦ rw (f, z) (refl, refl, refl, refl, inr (refl, refl))
            | inr z ↦
                let (on, kept, r, v, p) = passed end g in
                let enough : g.window ≤ length (drop end g.pending) = ground (
                  arith,
                  z,
                  snap_le (length g.pending - g.window) g.pending,
                  length-drop end g.pending,
                ) in
                rw (f, z) (on, kept, r, v, inl (ground (arith, p, enough)))
          ]
