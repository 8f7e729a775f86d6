-- ===== src/Subtitles.antt =====
-- `_normalize` of pipeline/clipgauge_pipeline/transcripts/formats.py: the cues of a subtitle file in
-- order, cut so that none overlaps the next. Times are whole milliseconds.
pub mod Ordered
pub mod Kept
use clipgauge.Common.{ℕ, String, Bool, ◌||◌, List, [], ◌∷◌, ltb, leb, min, if◌then◌else◌, sort_by}
use clipgauge.Text.{is_blank}

pub record SubtitleCue : Type 0 where
  pub start_ms : ℕ
  pub end_ms : ℕ
  pub text : String
  pub ordinal : ℕ

-- The cue behind the last one of the output is cut short, or dropped if nothing is left of it. The
-- output is kept with the last cue first.
abbrev pub cut_last : List SubtitleCue → ℕ → List SubtitleCue
cut_last [] start = []
cut_last (p ∷ ps) start =
    if ltb start p.end_ms
    then (if leb start p.start_ms then ps else record p { end_ms = start } ∷ ps)
    else p ∷ ps

-- A duration that is not known is 0.
abbrev pub bounded_end : ℕ → SubtitleCue → ℕ
bounded_end duration c = if ltb 0 duration then min c.end_ms duration else c.end_ms

abbrev pub add_cue : ℕ → List SubtitleCue → SubtitleCue → List SubtitleCue
add_cue duration output c =
    if leb (bounded_end duration c) c.start_ms || is_blank c.text
    then output
    else record c { end_ms = bounded_end duration c } ∷ cut_last output c.start_ms

unfoldable pub add_cues : ℕ → List SubtitleCue → List SubtitleCue → List SubtitleCue
add_cues duration output [] = output
add_cues duration output (c ∷ cs) = add_cues duration (add_cue duration output c) cs

abbrev pub turn : List SubtitleCue → List SubtitleCue → List SubtitleCue
turn [] done = done
turn (c ∷ cs) done = turn cs (c ∷ done)

-- By start, then by end, then by ordinal, which goes up along the list.
unfoldable pub ordered_cues : List SubtitleCue → List SubtitleCue
unfolding sort_by
ordered_cues cues = sort_by (λ c. c.start_ms) (sort_by (λ c. c.end_ms) cues)

unfoldable pub normalize : List SubtitleCue → ℕ → List SubtitleCue
unfolding add_cues ordered_cues
normalize cues duration = turn (add_cues duration [] (ordered_cues cues)) []
