-- ===== src/Registry/Patterns.antt =====
-- registry.go: paths with a {model} placeholder. Texts are split and cut at byte positions, as Go's are.
use Prim.Native.String.{len, slice}
use text.Mathlib.Text.{starts_with, find?}
use gatew_ai.Base.{
  ℕ, zero, suc, ◌+◌, ◌-◌, Bool, not, ◌&&◌, ◌||◌, Option, none, some, String, str_eq, leb, ltb, List,
  [], ◌∷◌, if◌then◌else◌,
}
use gatew_ai.Server.{present}

unfoldable pub contains : String → String → Bool
contains s t = present (find? s t)

unfoldable pub has_suffix : String → String → Bool
has_suffix s t = leb (len t) (len s) && str_eq (slice s (len s - len t) (len s)) t

unfoldable pub trim_suffix : String → String → String
unfolding has_suffix
trim_suffix s t = if has_suffix s t then slice s 0 (len s - len t) else s

-- strings.Split at a separator; every part but the last is shorter than the text by the separator.
unfoldable pub split_from : ℕ → String → String → List String
split_from zero s sep = s ∷ []
split_from (suc fuel) s sep = elim (find? s sep) [
  | none ↦ s ∷ []
  | some i ↦ slice s 0 i ∷ split_from fuel (slice s (i + len sep) (len s)) sep
]

unfoldable pub split : String → String → List String
unfolding split_from
split s sep = split_from (len s) s sep

-- The text before the placeholder and the text after it.
unfoldable pub around : String → String → String × String
around s placeholder = elim (find? s placeholder) [
  | none ↦ (s, "")
  | some i ↦ (slice s 0 i, slice s (i + len placeholder) (len s))
]

unfoldable pub match_model_segment : String → String → Option String
unfolding around has_suffix
match_model_segment pattern actual =
    let (prefix, suffix) = around pattern "{model}" in
    if not (starts_with actual prefix) || not (has_suffix actual suffix)
    then none
    else if ltb (len actual) (len prefix + len suffix)
    then none
    else some (slice actual (len prefix) (len actual - len suffix))

-- The loop over the segments of a pattern, from the model that was found so far.
unfoldable pub match_segments : List String → List String → String → Option String
unfolding contains match_model_segment
match_segments [] [] model = if str_eq model "" then none else some model
match_segments [] (u ∷ us) model = none
match_segments (p ∷ ps) [] model = none
match_segments (p ∷ ps) (u ∷ us) model =
    let literal = match_segments ps us model in
    if contains p "{model}"
    then elim (match_model_segment p u) [
      | none ↦ none
      | some m ↦ let later = match_segments ps us m in if str_eq m "" then none else later
    ]
    else if not (str_eq u p)
    then none
    else literal

unfoldable pub match_path : List String → String → Option String
unfolding match_segments split
match_path segments url_path = match_segments segments (split url_path "/") ""
