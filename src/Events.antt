-- ===== src/Events.antt =====
-- pipeline/clipgauge_pipeline/events/post.py: from the posteriors of the frames to the spans of an
-- event. A span is counted in frames, and a posterior in thousandths.
pub mod Separate
pub mod Loud
use clipgauge.Common.{
  ℕ, suc, ◌+◌, ◌-◌, ◌*◌, ◌/◌, ◌%◌, max, Bool, true, false, List, [], ◌∷◌, ◌++◌, leb, ◌==◌,
  if◌then◌else◌,
}

abbrev pub enter_threshold : ℕ
enter_threshold = 500

abbrev pub stay_threshold : ℕ
stay_threshold = 250

pub record Span : Type 0 where
  pub start : ℕ
  pub end : ℕ
  pub peak : ℕ

-- `inside`, with `start` and `peak`
pub data Tracking : Type 0 where
  outside : Tracking
  inside : ℕ → ℕ → Tracking

module _ (enter stay : ℕ) where
  abbrev pub next_tracking : ℕ → Tracking → ℕ → Tracking
  next_tracking i outside p = if leb enter p then inside i p else outside
  next_tracking i (inside start peak) p = if leb stay p then inside start (max peak p) else outside

  -- The span that frame `i` ends.
  abbrev pub ended_span : ℕ → Tracking → ℕ → List Span
  ended_span i outside p = []
  ended_span i (inside start peak) p =
      if leb stay p then [] else record { start = start; end = i; peak = peak } ∷ []

  -- The span that the end of the frames ends.
  abbrev pub last_span : ℕ → Tracking → List Span
  last_span i outside = []
  last_span i (inside start peak) = record { start = start; end = i; peak = peak } ∷ []

  unfoldable pub hysteresis_from : ℕ → Tracking → List ℕ → List Span
  hysteresis_from i t [] = last_span i t
  hysteresis_from i t (p ∷ ps) =
      ended_span i t p ++ hysteresis_from (suc i) (next_tracking i t p) ps

  unfoldable pub hysteresis_spans : List ℕ → List Span
  unfolding hysteresis_from
  hysteresis_spans probs = hysteresis_from 0 outside probs

module _ (fps : ℕ) where
  -- `start - last_end <= 0.32`, in frames; a negative difference is one that holds.
  abbrev pub is_close : Span → Span → Bool
  is_close last s = leb (100 * (s.start - last.end)) (32 * fps)

  abbrev pub joined : Span → Span → Span
  joined last s = record last { end = max last.end s.end; peak = max last.peak s.peak }

  unfoldable pub merge_from : Span → List Span → List Span
  merge_from last [] = last ∷ []
  merge_from last (s ∷ ss) =
      let close = is_close last s in
      let rest = merge_from (if close then joined last s else s) ss in
      if close then rest else last ∷ rest

  unfoldable pub merge_close : List Span → List Span
  unfolding merge_from
  merge_close [] = []
  merge_close (s ∷ ss) = merge_from s ss

  -- `s[1] - s[0] >= 0.2`, in frames
  abbrev pub is_long : Span → Bool
  is_long s = leb (2 * fps) (10 * (s.end - s.start))

  unfoldable pub drop_short : List Span → List Span
  drop_short [] = []
  drop_short (s ∷ ss) = let rest = drop_short ss in if is_long s then s ∷ rest else rest

  -- `width`: 0.15 s of frames, at least one, and odd.
  abbrev pub filter_width : ℕ
  filter_width = let width = max 1 (15 * fps / 100) in if width % 2 == 0 then width + 1 else width

  -- `medfilt` is scipy's, with the width of its kernel.
  abbrev pub median_filter : (ℕ → List ℕ → List ℕ) → List ℕ → List ℕ
  median_filter medfilt [] = []
  median_filter medfilt (p ∷ ps) = medfilt filter_width (p ∷ ps)

  unfoldable pub postprocess : (ℕ → List ℕ → List ℕ) → ℕ → ℕ → List ℕ → List Span
  unfolding hysteresis_spans merge_close drop_short
  postprocess medfilt enter stay probs =
      drop_short (merge_close (hysteresis_spans enter stay (median_filter medfilt probs)))
