-- ===== src/Registry/Placeholders.antt =====
-- registry.go: the model in a segment of a path is what was put in the place of {model}.
use Prim.Native.String.{len, slice}
use text.Mathlib.Text.{find?}
use text.Mathlib.TextLemmas.{append_assoc}
use text.Mathlib.TextPositions.{
  len-append, slice-append_left, slice-append_middle, slice-append_right, starts_with-append,
  eq_refl,
}
use gatew_ai.Base.{◌+◌, ◌≡◌, subst, true, some, String, append, arith}
use gatew_ai.Registry.Patterns.{around, has_suffix, match_model_segment}

total : (p t q : String) → len (append p (append t q)) ≡ len p + len t + len q
total p t q = omega (arith, len-append p (append t q), len-append t q)

slice_last :
    (p t q : String)
    → slice (append p (append t q)) (len p + len t) (len (append p (append t q))) ≡ q
slice_last p t q =
    rw (total p t q) (simp (append_assoc, len-append) at (slice-append_right (append p t) q))

around_lem :
    (p q t : String)
    → find? (append p (append t q)) t ≡ some (len p)
    → around (append p (append t q)) t ≡ (p, q)
unfolding around
around_lem p q t h = ground (arith, h, slice-append_left p (append t q), slice_last p t q)

has_suffix-append : (s t : String) → has_suffix (append s t) t ≡ true
unfolding has_suffix
has_suffix-append s t = ground (arith, len-append s t, slice-append_right s t, eq_refl t)

has_suffix_last : (p m q : String) → has_suffix (append p (append m q)) q ≡ true
has_suffix_last p m q =
    subst (λ s. has_suffix s q ≡ true) (append_assoc p m q) (has_suffix-append (append p m) q)

match_around :
    (pattern p q m : String)
    → around pattern "{model}" ≡ (p, q)
    → match_model_segment pattern (append p (append m q)) ≡ some m
unfolding match_model_segment
match_around pattern p q m h = ground (
  arith,
  h,
  total p m q,
  starts_with-append p (append m q),
  has_suffix_last p m q,
  slice-append_middle p m q,
)

-- If the first placeholder of a segment of a pattern stands between two texts, then the model that is
-- found in these texts around any text is that text.
pub match_model_segment-append :
    (p q m : String)
    → find? (append p (append "{model}" q)) "{model}" ≡ some (len p)
    → match_model_segment (append p (append "{model}" q)) (append p (append m q)) ≡ some m
match_model_segment-append p q m h =
    match_around (append p (append "{model}" q)) p q m (around_lem p q "{model}" h)
