-- ===== src/Witnesses/Timeline.antt =====
-- The theorems about the timeline, at concrete inputs.
use clipgauge.Common.{
  ℕ, ◌*◌, ◌/◌, ◌≤◌, ◌<◌, ◌≡◌, refl, ◌⊎◌, true, false, some, List, [], ◌∷◌, All, arith, length,
  SortedBy,
}
use clipgauge.Timeline.Cuts.{Word, Event, Cut, Reason, words_inside, decide_gap, detect_dead_space}
use clipgauge.Timeline.Cuts.Silence.{Spares, SparesEvent, detect_dead_space-Spares}
use clipgauge.Timeline.Ranges.{Range, active_cuts, keep_ranges}
use clipgauge.Timeline.Ranges.Cover.{KeepsFree, keep_ranges-Covers}
use clipgauge.Timeline.Remap.{output_duration, to_output, remap_words, remap_trajectory}
use clipgauge.Timeline.Remap.Order.{IsShown, remap_words_sound}
use clipgauge.Timeline.Remap.Frames.{IsFromKept, remap_trajectory_sound}

abbrev some_words : List Word
some_words =
    record { word = "so"; start = 1000; end = 1400 }
    ∷ record { word = "end."; start = 5000; end = 5300 }
    ∷ record { word = "next"; start = 6200; end = 6500 }
    ∷ []

abbrev some_events : List Event
some_events = record { kind = "laugh"; start = 9500; end = 9900 } ∷ []

detect_dead_space-Spares_example :
    All
      (λ c.
        (c.kept ≡ true)
        ⊎ (All (Spares c) (words_inside 1000 9000 some_words) × All (SparesEvent c) some_events))
      (detect_dead_space some_events some_words 1000 9000)
detect_dead_space-Spares_example = detect_dead_space-Spares some_events some_words 1000 9000 (
  omega arith,
  (omega arith, (omega arith, tt)),
  (omega arith, (omega arith, tt), (omega arith, tt, tt)),
)

abbrev two_cuts : List Cut
two_cuts =
    record { start = 1550; end = 4850; kept = false; reason = Reason.silence 3600 }
    ∷ record { start = 6500; end = 9000; kept = true; reason = Reason.comedic_timing }
    ∷ []

abbrev two_ranges : List Range
two_ranges = record { start = 1000; end = 1550 } ∷ record { start = 4850; end = 9000 } ∷ []

cuts_found :
    detect_dead_space some_events some_words 1000 9000
    ≡ record { start = 1550; end = 4850; kept = false; reason = Reason.silence 3600 }
      ∷ record { start = 5300; end = 6200; kept = true; reason = Reason.natural_pacing }
      ∷ record { start = 6500; end = 9000; kept = true; reason = Reason.comedic_timing }
      ∷ []
unfolding detect_dead_space decide_gap
cuts_found = refl

ranges_kept : keep_ranges 1000 9000 two_cuts [] ≡ two_ranges
unfolding keep_ranges
ranges_kept = refl

keep_ranges-Covers_example :
    KeepsFree 1000 9000 (active_cuts 1000 9000 two_cuts []) (keep_ranges 1000 9000 two_cuts [])
keep_ranges-Covers_example =
    keep_ranges-Covers 1000 9000 two_cuts [] (omega arith) (omega arith, (omega arith, tt))

second_range : to_output two_ranges 5000 ≡ some 700
unfolding to_output
second_range = refl

remap_words_sound_example :
    SortedBy (λ (w : Word). w.start) (remap_words two_ranges some_words)
    × All (IsShown two_ranges) (remap_words two_ranges some_words)
remap_words_sound_example =
    remap_words_sound two_ranges some_words
      ((omega arith, (omega arith, tt)), ((omega arith, tt), (tt, tt)))

abbrev two_frames : List ℕ
two_frames = 640 ∷ 660 ∷ []

long_enough : 1000 ≤ output_duration two_ranges * 30
unfolding output_duration
long_enough = omega arith

remap_trajectory_sound_example :
    (length (remap_trajectory 30 1000 two_ranges two_frames)
      ≡ output_duration two_ranges * 30 / 1000)
    × ((k : ℕ)
        → k < output_duration two_ranges * 30 / 1000
        → IsFromKept 30 1000 two_ranges two_frames
            (remap_trajectory 30 1000 two_ranges two_frames)
            k)
remap_trajectory_sound_example =
    remap_trajectory_sound 30 1000 0 two_ranges two_frames
      (omega arith, omega arith, (omega arith, omega arith, tt)) (omega arith) long_enough
