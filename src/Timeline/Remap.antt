-- ===== src/Timeline/Remap.antt =====
-- `TimeRemap`: from the time of the source to the time of the joined output.
pub mod Order
pub mod Frames
use clipgauge.Common.{
  ℕ, zero, suc, ◌+◌, ◌-◌, ◌*◌, ◌/◌, max, min, Bool, true, false, ◌&&◌, ◌||◌, not, Option, none,
  some, List, [], ◌∷◌, ltb, leb, length, get_elem?, if◌then◌else◌,
}
use clipgauge.Timeline.Cuts.{Word}
use clipgauge.Timeline.Ranges.{Range}

abbrev pub span : Range → ℕ
span r = r.end - r.start

-- `self.output_duration`
unfoldable pub output_duration : List Range → ℕ
output_duration [] = 0
output_duration (r ∷ rs) = span r + output_duration rs

-- The loop over the ranges with their offsets, of which `off` is the next.
unfoldable pub to_output_from : ℕ → List Range → ℕ → Option ℕ
to_output_from off [] t = none
to_output_from off (r ∷ rs) t =
    let rest = to_output_from (off + span r) rs t in
    if leb r.start t && leb t r.end then some (off + (t - r.start)) else rest

unfoldable pub to_output : List Range → ℕ → Option ℕ
unfolding to_output_from
to_output ranges t = to_output_from 0 ranges t

unfoldable pub clamped_from : ℕ → List Range → ℕ → ℕ
clamped_from off [] t = off
clamped_from off (r ∷ rs) t =
    let rest = clamped_from (off + span r) rs t in
    if ltb t r.start then off else if leb t r.end then off + (t - r.start) else rest

-- Behind the last range the offset is the output's duration.
unfoldable pub to_output_clamped : List Range → ℕ → ℕ
unfolding clamped_from
to_output_clamped ranges t = clamped_from 0 ranges t

-- `self.to_output((start + end) / 2) is not None`: on doubled times, for the middle may be half a
-- millisecond.
unfoldable pub middle_survives : List Range → Word → Bool
middle_survives [] w = false
middle_survives (r ∷ rs) w =
    (leb (2 * r.start) (w.start + w.end) && leb (w.start + w.end) (2 * r.end))
    || middle_survives rs w

abbrev pub remap_word : List Range → Word → Word
remap_word ranges w =
    let a = to_output_clamped ranges w.start in
    let b = to_output_clamped ranges w.end in
    record w { start = a; end = if leb b a then a + 40 else b }

unfoldable pub remap_words : List Range → List Word → List Word
unfolding middle_survives
remap_words ranges [] = []
remap_words ranges (w ∷ ws) =
    let rest = remap_words ranges ws in
    if middle_survives ranges w then remap_word ranges w ∷ rest else rest

abbrev is_last : List Range → Bool
is_last [] = true
is_last (r ∷ rs) = false

-- The time in the source, times `fps` and in milliseconds, of the output's frame `k`: the loop over
-- the ranges. `none` is a frame behind all of them.
unfoldable pub source_time : ℕ → ℕ → ℕ → List Range → Option ℕ
source_time fps k off [] = none
source_time fps k off (r ∷ rs) =
    let t = 1000 * k in
    let past = (off + span r) * fps in
    let here = r.start * fps + (t - off * fps) in
    let rest = source_time fps k (off + span r) rs in
    if leb (off * fps) t && ltb t past || is_last rs && leb t past then some here else rest

unfoldable pub last_end : List Range → ℕ
last_end [] = 0
last_end (r ∷ []) = r.end
last_end (r ∷ s ∷ rs) = last_end (s ∷ rs)

abbrev pub time_or_end : ℕ → List Range → Option ℕ → ℕ
time_or_end fps ranges none = last_end ranges * fps
time_or_end fps ranges (some t) = t

-- `int((src_t - clip_start) * fps)`, held inside the list of `count` frames
unfoldable pub frame_index : ℕ → ℕ → List Range → ℕ → ℕ → ℕ
unfolding source_time last_end
frame_index fps clip_start ranges count k =
    min ((time_or_end fps ranges (source_time fps k 0 ranges) - clip_start * fps) / 1000)
      (count - 1)

module _ {ℓ} {A : Type ℓ} where
  abbrev add_frame : Option A → List A → List A
  add_frame none out = out
  add_frame (some f) out = f ∷ out

  -- `n` frames from number `k` on; an index is in bounds if there is a frame, and
  -- the code raises IndexError if there is none.
  unfoldable pub frames_from : ℕ → ℕ → List Range → List A → ℕ → ℕ → List A
  frames_from fps clip_start ranges frames k zero = []
  frames_from fps clip_start ranges frames k (suc n) =
      add_frame (get_elem? frames (frame_index fps clip_start ranges (length frames) k))
        (frames_from fps clip_start ranges frames (suc k) n)

  abbrev first_of : List A → List A
  first_of [] = []
  first_of (f ∷ fs) = f ∷ []

  abbrev or_first : List A → List A → List A
  or_first frames [] = first_of frames
  or_first frames (f ∷ out) = f ∷ out

  unfoldable pub remap_trajectory : ℕ → ℕ → List Range → List A → List A
  unfolding frames_from
  remap_trajectory fps clip_start ranges frames =
      or_first frames
        (frames_from fps clip_start ranges frames 0 (output_duration ranges * fps / 1000))
