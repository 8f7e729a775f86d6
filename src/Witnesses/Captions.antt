-- ===== src/Witnesses/Captions.antt =====
-- The theorems about subtitles and captions, at concrete inputs.
use clipgauge.Common.{◌≡◌, refl, inr, List, [], ◌∷◌, All, arith}
use clipgauge.Subtitles.{SubtitleCue, normalize}
use clipgauge.Subtitles.Ordered.{AreApart, normalize-AreApart}
use clipgauge.Subtitles.Kept.{normalize-kept}
use clipgauge.Captions.{CaptionWord, chunk_words}
use clipgauge.Captions.Chunks.{IsChunk, all_words, chunk_words-All}

abbrev first_cue : SubtitleCue
first_cue = record { start_ms = 1000; end_ms = 2500; text = "one"; ordinal = 0 }

abbrev second_cue : SubtitleCue
second_cue = record { start_ms = 2000; end_ms = 9000; text = "two"; ordinal = 1 }

abbrev late_cue : SubtitleCue
late_cue = record { start_ms = 2500; end_ms = 3000; text = "two"; ordinal = 1 }

normalize-AreApart_example : AreApart 5000 (normalize (second_cue ∷ first_cue ∷ []) 5000)
normalize-AreApart_example = normalize-AreApart 5000 (second_cue ∷ first_cue ∷ [])

normalize-kept_example : normalize (first_cue ∷ late_cue ∷ []) 5000 ≡ first_cue ∷ late_cue ∷ []
normalize-kept_example = normalize-kept 5000 (first_cue ∷ late_cue ∷ []) (
  record { has_length = omega arith; has_words = refl; in_time = inr (omega arith) },
  omega arith,
  (record { has_length = omega arith; has_words = refl; in_time = inr (omega arith) }, tt, tt),
)

abbrev three_words : List CaptionWord
three_words =
    record { text = "Well,"; start_ms = 0; end_ms = 300 }
    ∷ record { text = "that"; start_ms = 400; end_ms = 600 }
    ∷ record { text = "worked"; start_ms = 1500; end_ms = 1900 }
    ∷ []

chunk_words-All_example :
    (all_words (chunk_words three_words) ≡ three_words) × All IsChunk (chunk_words three_words)
chunk_words-All_example = chunk_words-All three_words
