-- ===== src/Witnesses/Events.antt =====
-- The theorems about the spans of events, at concrete inputs.
use clipgauge.Common.{ℕ, ◌≡◌, refl, List, [], ◌∷◌, All, arith, length}
use clipgauge.Events.{
  enter_threshold, stay_threshold, hysteresis_spans, merge_close, drop_short, postprocess,
  median_filter,
}
use clipgauge.Events.Separate.{IsSpan, IsLong, AreFar, postprocess_sound}
use clipgauge.Events.Loud.{IsCovered, hysteresis_spans-IsCovered}

-- Ten frames a second.
abbrev some_probs : List ℕ
some_probs =
    100 ∷ 600 ∷ 300 ∷ 200 ∷ 700 ∷ 100 ∷ 100 ∷ 100 ∷ 100 ∷ 100 ∷ 550 ∷ 560 ∷ 570 ∷ 100 ∷ 900 ∷ []

abbrev unfiltered : ℕ → List ℕ → List ℕ
unfiltered width probs = probs

-- The last frame is joined to the span before it, and the first two spans are one.
two_spans :
    postprocess 10 unfiltered enter_threshold stay_threshold some_probs
    ≡ record { start = 1; end = 5; peak = 700 } ∷ record { start = 10; end = 15; peak = 900 } ∷ []
unfolding postprocess hysteresis_spans merge_close drop_short
two_spans = refl

postprocess_sound_example :
    All
      (IsSpan 10 (length (median_filter 10 unfiltered some_probs)))
      (postprocess 10 unfiltered enter_threshold stay_threshold some_probs)
    × All (IsLong 10) (postprocess 10 unfiltered enter_threshold stay_threshold some_probs)
    × AreFar 10 (postprocess 10 unfiltered enter_threshold stay_threshold some_probs)
postprocess_sound_example = postprocess_sound 10 unfiltered some_probs

hysteresis_spans-IsCovered_example :
    IsCovered 4 (hysteresis_spans enter_threshold stay_threshold some_probs)
hysteresis_spans-IsCovered_example =
    hysteresis_spans-IsCovered enter_threshold stay_threshold some_probs 4 700 (omega arith) refl
      (omega arith)
