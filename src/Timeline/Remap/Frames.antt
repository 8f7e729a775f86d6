-- ===== src/Timeline/Remap/Frames.antt =====
-- Every frame of the output is a frame of a kept range
-- (`remap_trajectory` of pipeline/clipgauge_pipeline/edits/timeline.py).
use clipgauge.Common.{
  ℕ, zero, suc, ◌+◌, ◌-◌, ◌*◌, ◌/◌, ◌≤◌, ◌<◌, min, ◌≡◌, refl, sym, ap, ◌∙◌, Bool, true, false, ◌&&◌,
  ◌||◌, some, List, [], ◌∷◌, arith, inl, inr, ◌⊎◌, ltb, leb, length, get_elem?, if◌then◌else◌,
  Bool-cases,
}
use clipgauge.Timeline.Ranges.{Range}
use clipgauge.Timeline.Remap.{
  span, output_duration, source_time, frame_index, frames_from, remap_trajectory, or_first,
}
use clipgauge.Timeline.Remap.Order.{IsOrdered}

-- A time, in frames of a thousandth, lies in one of the ranges.
abbrev pub IsKept : ℕ → ℕ → List Range → Type 0
IsKept fps t [] = ⊥
IsKept fps t (r ∷ rs) = ((r.start * fps ≤ t) × (t ≤ r.end * fps)) ⊎ IsKept fps t rs

mul_span : (a b fps : ℕ) → a ≤ b → b * fps ≡ a * fps + (b - a) * fps
mul_span a b fps h = grind arith

mul_sum : (a b fps : ℕ) → (a + b) * fps ≡ a * fps + b * fps
mul_sum a b fps = grind arith

if_past {ℓ} :
    {A : Type ℓ} (x y : A) (b c : Bool) → c ≡ false → (if b && c || false then x else y) ≡ y
if_past x y false c h = refl
if_past x y true c h = rw h refl

source_time-IsKept_from :
    (fps k lo off : ℕ) (rs : List Range)
    → IsOrdered lo rs
    → off * fps ≤ 1000 * k
    → 1000 * k < (off + output_duration rs) * fps
    → (t : ℕ) × (source_time fps k off rs ≡ some t) × IsKept fps t rs
unfolding source_time output_duration
source_time-IsKept_from fps k lo off [] i h b = absurd (omega arith)
source_time-IsKept_from fps k lo off (r ∷ []) i h b =
    let e = mul_span r.start r.end fps i.1 in
    let d = mul_sum off (span r) fps in
    (r.start * fps + (1000 * k - off * fps), ground arith, inl (omega arith, omega arith))
source_time-IsKept_from fps k lo off (r ∷ s ∷ rs) i h b =
    elim (Bool-cases (ltb (1000 * k) ((off + span r) * fps))) [
      | inl e ↦
          let a = mul_span r.start r.end fps i.1 in
          let d = mul_sum off (span r) fps in
          (r.start * fps + (1000 * k - off * fps), ground arith, inl (omega arith, ground arith))
      | inr e ↦
          let ih =
            source_time-IsKept_from fps k r.end (off + span r) (s ∷ rs) i.2 (ground arith)
              (omega arith) in
          (
            ih.0,
            if_past (some (r.start * fps + (1000 * k - off * fps)))
                  (source_time fps k (off + span r) (s ∷ rs)) (leb (off * fps) (1000 * k))
                  (ltb (1000 * k) ((off + span r) * fps)) e
                ∙ ih.1,
            inr ih.2,
          )
    ]

module _ {ℓ} {A : Type ℓ} where
  get_elem?-some : (xs : List A) (i : ℕ) → i < length xs → (a : A) × (get_elem? xs i ≡ some a)
  get_elem?-some [] i h = absurd (omega arith)
  get_elem?-some (x ∷ xs) zero h = (x, refl)
  get_elem?-some (x ∷ xs) (suc i) h = get_elem?-some xs i (omega arith)

  get_elem?-at_index :
      (fps clip_start : ℕ) (ranges : List Range) (frames : List A) (k : ℕ)
      → 0 < length frames
      → (a : A) × (get_elem? frames (frame_index fps clip_start ranges (length frames) k) ≡ some a)
  unfolding frame_index
  get_elem?-at_index fps clip_start ranges frames k h =
      get_elem?-some frames (frame_index fps clip_start ranges (length frames) k) (omega arith)

  length-frames_from :
      (fps clip_start : ℕ) (ranges : List Range) (frames : List A) (k n : ℕ)
      → 0 < length frames
      → length (frames_from fps clip_start ranges frames k n) ≡ n
  unfolding frames_from
  length-frames_from fps clip_start ranges frames k zero h = refl
  length-frames_from fps clip_start ranges frames k (suc n) h =
      let found = get_elem?-at_index fps clip_start ranges frames k h in
      rw found.1 (ap suc (length-frames_from fps clip_start ranges frames (suc k) n h))

  get_elem?-frames_from :
      (fps clip_start : ℕ) (ranges : List Range) (frames : List A) (k n j : ℕ)
      → 0 < length frames
      → j < n
      → get_elem? (frames_from fps clip_start ranges frames k n) j
        ≡ get_elem? frames (frame_index fps clip_start ranges (length frames) (k + j))
  unfolding frames_from
  get_elem?-frames_from fps clip_start ranges frames k zero j h below = absurd (omega arith)
  get_elem?-frames_from fps clip_start ranges frames k (suc n) zero h below =
      let found = get_elem?-at_index fps clip_start ranges frames k h in
      rw found.1 (
        sym found.1
        ∙ ap (λ m. get_elem? frames (frame_index fps clip_start ranges (length frames) m))
            (omega arith))
  get_elem?-frames_from fps clip_start ranges frames k (suc n) (suc j) h below =
      let found = get_elem?-at_index fps clip_start ranges frames k h in
      rw found.1 (
        get_elem?-frames_from fps clip_start ranges frames (suc k) n j h (omega arith)
        ∙ ap (λ m. get_elem? frames (frame_index fps clip_start ranges (length frames) m))
            (omega arith))

  or_first-some : (frames out : List A) → 0 < length out → or_first frames out ≡ out
  or_first-some frames [] h = absurd (omega arith)
  or_first-some frames (f ∷ out) h = refl

  -- The number of the frame that is shown for a time of the source, held inside the list.
  abbrev pub index_at : ℕ → ℕ → List A → ℕ → ℕ
  index_at fps clip_start frames t = min ((t - clip_start * fps) / 1000) (length frames - 1)

  -- Frame `k` of the list is the frame of a time that was kept.
  abbrev pub IsFromKept : ℕ → ℕ → List Range → List A → List A → ℕ → Type ℓ
  IsFromKept fps clip_start ranges frames out k =
      (t : ℕ) × IsKept fps t ranges
      × (get_elem? out k ≡ get_elem? frames (index_at fps clip_start frames t))

  at_kept :
      (fps clip_start : ℕ) (ranges : List Range) (frames : List A) (k t : ℕ)
      → source_time fps k 0 ranges ≡ some t
      → get_elem? frames (frame_index fps clip_start ranges (length frames) k)
        ≡ get_elem? frames (index_at fps clip_start frames t)
  unfolding frame_index
  at_kept fps clip_start ranges frames k t e = rw e refl

  -- For an output of a frame at least, there are as many frames as fit in its duration, and each is
  -- the frame of a time inside a kept range.
  pub remap_trajectory_sound :
      (fps clip_start lo : ℕ) (ranges : List Range) (frames : List A)
      → IsOrdered lo ranges
      → 0 < length frames
      → 1000 ≤ output_duration ranges * fps
      → (length (remap_trajectory fps clip_start ranges frames)
          ≡ output_duration ranges * fps / 1000)
        × ((k : ℕ)
            → k < output_duration ranges * fps / 1000
            → IsFromKept fps clip_start ranges frames
                (remap_trajectory fps clip_start ranges frames)
                k)
  unfolding remap_trajectory frame_index
  remap_trajectory_sound fps clip_start lo ranges frames i h enough =
      let n = output_duration ranges * fps / 1000 in
      let len = length-frames_from fps clip_start ranges frames 0 n h in
      let whole =
        or_first-some frames (frames_from fps clip_start ranges frames 0 n) (omega arith) in
      (
        ap length whole ∙ len,
        λ k below.
            let kept = source_time-IsKept_from fps k lo 0 ranges i (omega arith) (omega arith) in
            let same : 0 + k ≡ k = omega arith in
            let at = get_elem?-frames_from fps clip_start ranges frames 0 n k h below in
            (
              kept.0,
              kept.2,
              ap (λ out. get_elem? out k) whole
                  ∙ at
                  ∙ ap (λ m. get_elem? frames (frame_index fps clip_start ranges (length frames) m))
                      same
                  ∙ at_kept fps clip_start ranges frames k kept.0 kept.1,
            ),
      )
