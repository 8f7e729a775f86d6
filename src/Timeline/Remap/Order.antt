-- ===== src/Timeline/Remap/Order.antt =====
-- The remapping of times keeps their order and stays inside the output
-- (pipeline/clipgauge_pipeline/edits/timeline.py).
use clipgauge.Common.{ℕ, ◌+◌, ◌≤◌, ◌<◌, ◌≡◌, some, List, [], ◌∷◌, All, arith, if_ind, SortedBy}
use clipgauge.Timeline.Cuts.{Word}
use clipgauge.Timeline.Ranges.{Range}
use clipgauge.Timeline.Remap.{
  span, output_duration, to_output_from, to_output, clamped_from, to_output_clamped,
  middle_survives, remap_word, remap_words,
}

clamped_from_bounds :
    (off : ℕ) (rs : List Range) (t : ℕ)
    → (off ≤ clamped_from off rs t) × (clamped_from off rs t ≤ off + output_duration rs)
unfolding clamped_from output_duration
clamped_from_bounds off [] t = (omega arith, omega arith)
clamped_from_bounds off (r ∷ rs) t =
    let ih = clamped_from_bounds (off + span r) rs t in (ground arith, ground arith)

clamped_from_mono :
    (off : ℕ) (rs : List Range) (t u : ℕ) → t ≤ u → clamped_from off rs t ≤ clamped_from off rs u
unfolding clamped_from
clamped_from_mono off [] t u h = omega arith
clamped_from_mono off (r ∷ rs) t u h =
    let ih = clamped_from_mono (off + span r) rs t u h in
    let low = clamped_from_bounds (off + span r) rs u in ground arith

-- A later time of the source is not shown before an earlier one, and none is shown behind the end.
pub to_output_clamped_mono :
    (ranges : List Range) (t u : ℕ)
    → t ≤ u
    → (to_output_clamped ranges t ≤ to_output_clamped ranges u)
      × (to_output_clamped ranges u ≤ output_duration ranges)
unfolding to_output_clamped
to_output_clamped_mono ranges t u h =
    (clamped_from_mono 0 ranges t u h, omega (arith, clamped_from_bounds 0 ranges u))

-- The ranges follow one another.
abbrev pub IsOrdered : ℕ → List Range → Type 0
IsOrdered lo [] = Unit
IsOrdered lo (r ∷ rs) = (lo ≤ r.start) × (r.start ≤ r.end) × IsOrdered r.end rs

to_output_from-le :
    (lo off : ℕ) (rs : List Range) (t o : ℕ)
    → IsOrdered lo rs
    → to_output_from off rs t ≡ some o
    → lo ≤ t
unfolding to_output_from
to_output_from-le lo off [] t o i h = ground arith
to_output_from-le lo off (r ∷ rs) t o i h =
    ground (arith, to_output_from-le r.end (off + span r) rs t o i.2)

to_output_from-clamped :
    (lo off : ℕ) (rs : List Range) (t o : ℕ)
    → IsOrdered lo rs
    → to_output_from off rs t ≡ some o
    → clamped_from off rs t ≡ o
unfolding to_output_from clamped_from
to_output_from-clamped lo off [] t o i h = ground arith
to_output_from-clamped lo off (r ∷ rs) t o i h = ground (
  arith,
  to_output_from-clamped r.end (off + span r) rs t o i.2,
  to_output_from-le r.end (off + span r) rs t o i.2,
)

-- Where the source is kept, the two remappings agree.
pub to_output-clamped :
    (ranges : List Range) (t o : ℕ)
    → IsOrdered 0 ranges
    → to_output ranges t ≡ some o
    → to_output_clamped ranges t ≡ o
unfolding to_output to_output_clamped
to_output-clamped ranges t o i h = to_output_from-clamped 0 0 ranges t o i h

-- A word that is shown: not empty, and on the output's timeline but for the least duration.
abbrev pub IsShown : List Range → Word → Type 0
IsShown ranges w =
    (w.start < w.end) × (w.start ≤ output_duration ranges) × (w.end ≤ output_duration ranges + 40)

remap_word-IsShown : (ranges : List Range) (w : Word) → IsShown ranges (remap_word ranges w)
remap_word-IsShown ranges w =
    let s = to_output_clamped_mono ranges w.start w.start (omega arith) in
    let e = to_output_clamped_mono ranges w.end w.end (omega arith) in
    (ground arith, ground arith, ground arith)

remap_words-All :
    (ranges : List Range) (P Q : Word → Type 0) (ws : List Word)
    → ((w : Word) → P w → Q (remap_word ranges w))
    → All P ws
    → All Q (remap_words ranges ws)
unfolding remap_words
remap_words-All ranges P Q [] f h = tt
remap_words-All ranges P Q (w ∷ ws) f h =
    if_ind (All Q) (middle_survives ranges w) (λ _. (f w h.0, remap_words-All ranges P Q ws f h.1))
      (λ _. remap_words-All ranges P Q ws f h.1)

remap_words-SortedBy :
    (ranges : List Range) (ws : List Word)
    → SortedBy (λ (w : Word). w.start) ws
    → SortedBy (λ (w : Word). w.start) (remap_words ranges ws)
unfolding remap_words
remap_words-SortedBy ranges [] s = tt
remap_words-SortedBy ranges (w ∷ ws) s =
    if_ind (SortedBy (λ (v : Word). v.start)) (middle_survives ranges w)
      (λ _. (
        remap_words-All ranges (λ v. w.start ≤ v.start) (λ v. (remap_word ranges w).start ≤ v.start)
            ws (λ v le. (to_output_clamped_mono ranges w.start v.start le).0) s.0,
        remap_words-SortedBy ranges ws s.1,
      ))
      (λ _. remap_words-SortedBy ranges ws s.1)

All-trivial {ℓ} : {A : Type ℓ} (xs : List A) → All (λ _. Unit {0}) xs
All-trivial [] = tt
All-trivial (x ∷ xs) = (tt, All-trivial xs)

-- The words that survive are shown in the order in which they start, none of them empty, and none
-- behind the end of the output but for the least duration of 0.04 s.
pub remap_words_sound :
    (ranges : List Range) (ws : List Word)
    → SortedBy (λ (w : Word). w.start) ws
    → SortedBy (λ (w : Word). w.start) (remap_words ranges ws)
      × All (IsShown ranges) (remap_words ranges ws)
remap_words_sound ranges ws s = (
  remap_words-SortedBy ranges ws s,
  remap_words-All ranges (λ _. Unit {0}) (IsShown ranges) ws (λ w _. remap_word-IsShown ranges w)
      (All-trivial ws),
)
