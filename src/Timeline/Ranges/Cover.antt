-- ===== src/Timeline/Ranges/Cover.antt =====
-- The ranges that `keep_ranges` leaves lie in the clip in order, and keep nothing of an active cut
-- (pipeline/clipgauge_pipeline/edits/timeline.py).
use clipgauge.Common.{
  ℕ, suc, ◌+◌, ◌-◌, ◌≤◌, ◌<◌, max, min, ◌≡◌, refl, true, List, [], ◌∷◌, All, All-map, All-both,
  arith, inl, inr, ◌⊎◌, leb, if_ind, leb→le, SortedBy, sort_by-All, sort_by-SortedBy,
}
use clipgauge.Timeline.Cuts.{Cut}
use clipgauge.Timeline.Ranges.{
  Range, is_active, active_from, active_cuts, keep_loop, or_whole, keep_ranges, min_keep_range,
}

-- In order between two times, and each long enough.
abbrev pub IsChain : ℕ → ℕ → List Range → Type 0
IsChain lo hi [] = Unit
IsChain lo hi (r ∷ rs) =
    (lo ≤ r.start) × (r.start + min_keep_range ≤ r.end) × (r.end ≤ hi) × IsChain r.end hi rs

-- A range and a cut that have no inner time in common.
abbrev pub Avoids : Range → Cut → Type 0
Avoids r c = (r.end ≤ c.start) ⊎ (c.end ≤ r.start)

-- A range lies within one of the list.
abbrev pub Within : Range → List Range → Type 0
Within r [] = ⊥
Within r (k ∷ ks) = ((k.start ≤ r.start) × (r.end ≤ k.end)) ⊎ Within r ks

IsChain-lower : (lo lo' hi : ℕ) (rs : List Range) → lo' ≤ lo → IsChain lo hi rs → IsChain lo' hi rs
IsChain-lower lo lo' hi [] h k = tt
IsChain-lower lo lo' hi (r ∷ rs) h k = (omega (arith, k.0), k.1, k.2, k.3)

-- A range of a chain starts behind its lower bound and ends before its upper one.
IsChain-All :
    (lo hi : ℕ) (rs : List Range)
    → IsChain lo hi rs
    → All (λ r. (lo ≤ r.start) × (r.start + min_keep_range ≤ r.end) × (r.end ≤ hi)) rs
IsChain-All lo hi [] k = tt
IsChain-All lo hi (r ∷ rs) k = (
  (k.0, k.1, k.2),
  IsChain-All lo hi rs (IsChain-lower r.end lo hi rs (omega (arith, k.0, k.1)) k.3),
)

module _ (a b : ℕ) where
  -- What the filter has checked of an active cut, and that it is not reversed.
  abbrev IsInside : Cut → Type 0
  IsInside c = (c.start ≤ c.end) × (a < c.end) × (c.start < b)

  keep_loop-IsChain :
      (cursor : ℕ) (cs : List Cut)
      → a ≤ cursor
      → cursor ≤ b
      → All IsInside cs
      → IsChain cursor b (keep_loop a b cursor cs)
  unfolding keep_loop
  keep_loop-IsChain cursor [] g h i =
      if_ind (IsChain cursor b) (leb min_keep_range (b - cursor))
        (λ e. (omega arith, ground arith, omega arith, tt)) (λ _. tt)
  keep_loop-IsChain cursor (c ∷ cs) g h i =
      let next = max cursor (min b c.end) in
      let rest = keep_loop-IsChain next cs (omega arith) (omega arith) i.1 in
      if_ind (IsChain cursor b) (leb min_keep_range (max a c.start - cursor))
        (λ e. (
          omega arith,
          ground arith,
          omega (arith, i.0),
          IsChain-lower next (max a c.start) b (keep_loop a b next cs) (omega (arith, i.0)) rest,
        ))
        (λ _. IsChain-lower next cursor b (keep_loop a b next cs) (omega arith) rest)

  -- The piece in front of a cut is long enough only if it ends where the cut starts.
  piece_end :
      (cursor : ℕ) (c : Cut)
      → a ≤ cursor
      → leb min_keep_range (max a c.start - cursor) ≡ true
      → max a c.start ≤ c.start
  piece_end cursor c h e = omega (arith, leb→le _ _ e)

  keep_loop-Avoids :
      (cursor : ℕ) (cs : List Cut)
      → a ≤ cursor
      → cursor ≤ b
      → All IsInside cs
      → SortedBy (λ c. c.start) cs
      → All (λ r. All (Avoids r) cs) (keep_loop a b cursor cs)
  unfolding keep_loop
  keep_loop-Avoids cursor [] h k i s =
      if_ind (All (λ r. All (Avoids r) [])) (leb min_keep_range (b - cursor)) (λ _. (tt, tt))
        (λ _. tt)
  keep_loop-Avoids cursor (c ∷ cs) h k i s =
      let next = max cursor (min b c.end) in
      let later = keep_loop a b next cs in
      let chain = keep_loop-IsChain next cs (omega arith) (omega arith) i.1 in
      let rest =
        All-both (λ r. Avoids r c) (λ r. All (Avoids r) cs) later
          (All-map _ (λ r. Avoids r c) later (λ r p. inr (omega (arith, p.0, p.1, p.2)))
            (IsChain-All next b later chain))
          (keep_loop-Avoids next cs (omega arith) (omega arith) i.1 s.1) in
      if_ind (All (λ r. All (Avoids r) (c ∷ cs))) (leb min_keep_range (max a c.start - cursor))
        (λ e. (
          (
            inl (piece_end cursor c h e),
            All-map (λ (d : Cut). c.start ≤ d.start) _ cs
                (λ d le. inl (omega (arith, piece_end cursor c h e))) s.0,
          ),
          rest,
        ))
        (λ _. rest)

  -- A range behind the cursor that no cut reaches into, and that is long enough, is kept.
  keep_loop-Within :
      (cursor : ℕ) (cs : List Cut) (r : Range)
      → cursor ≤ r.start
      → r.start + min_keep_range ≤ r.end
      → r.end ≤ b
      → All (Avoids r) cs
      → Within r (keep_loop a b cursor cs)
  unfolding keep_loop
  keep_loop-Within cursor [] r from long to free =
      if_ind (Within r) (leb min_keep_range (b - cursor)) (λ _. inl (from, to))
        (λ short. absurd (ground (arith, short, from, long, to)))
  keep_loop-Within cursor (c ∷ cs) r from long to free =
      let rest = λ (behind : c.end ≤ r.start).
        keep_loop-Within (max cursor (min b c.end)) cs r (omega (arith, from, behind)) long to
          free.1 in
      elim free.0 [
        | inl before ↦
            if_ind (Within r) (leb min_keep_range (max a c.start - cursor))
              (λ _. inl (from, omega (arith, before)))
              (λ short. absurd (ground (arith, short, from, long, before)))
        | inr behind ↦
            if_ind (Within r) (leb min_keep_range (max a c.start - cursor)) (λ _. inr (rest behind))
              (λ _. rest behind)
      ]

  active_from-IsInside :
      (disabled : List ℕ) (i : ℕ) (cs : List Cut)
      → All (λ c. c.start ≤ c.end) cs
      → All IsInside (active_from a b disabled i cs)
  unfolding active_from
  active_from-IsInside disabled i [] h = tt
  active_from-IsInside disabled i (c ∷ cs) h =
      if_ind (All IsInside) (is_active a b disabled i c)
        (λ e. ((h.0, ground arith, ground arith), active_from-IsInside disabled (suc i) cs h.1))
        (λ _. active_from-IsInside disabled (suc i) cs h.1)

active_cuts-IsInside :
    (a b : ℕ) (cuts : List Cut) (disabled : List ℕ)
    → All (λ c. c.start ≤ c.end) cuts
    → All (IsInside a b) (active_cuts a b cuts disabled)
unfolding active_cuts
active_cuts-IsInside a b cuts disabled h =
    sort_by-All (λ c. c.start) (IsInside a b) _ (active_from-IsInside a b disabled 0 cuts h)

active_cuts-SortedBy :
    (a b : ℕ) (cuts : List Cut) (disabled : List ℕ)
    → SortedBy (λ c. c.start) (active_cuts a b cuts disabled)
unfolding active_cuts
active_cuts-SortedBy a b cuts disabled =
    sort_by-SortedBy {A = Cut} (λ c. c.start) (active_from a b disabled 0 cuts)

-- A stretch of the clip of 0.4 s or more, into which no active cut reaches.
pub record IsFree (clip_start clip_end : ℕ) (active : List Cut) (r : Range) : Type 0 where
  pub from : clip_start ≤ r.start
  pub long : r.start + 400 ≤ r.end
  pub to : r.end ≤ clip_end
  pub free : All (Avoids r) active

-- The ranges lie in the clip, in order, none shorter than 0.4 s, and no active cut reaches into one;
-- and no more is lost than what the cuts take out.
pub record Covers (clip_start clip_end : ℕ) (active : List Cut) (rs : List Range) : Type 0 where
  pub chain : IsChain clip_start clip_end rs
  pub avoids : All (λ r. All (Avoids r) active) rs
  pub complete : (r : Range) → IsFree clip_start clip_end active r → Within r rs

-- The whole clip is kept if the cuts leave no such stretch, and what they leave otherwise.
abbrev pub KeepsFree : ℕ → ℕ → List Cut → List Range → Type 0
KeepsFree clip_start clip_end active rs =
    ((rs ≡ record { start = clip_start; end = clip_end } ∷ [])
      × ((r : Range) → ¬ IsFree clip_start clip_end active r))
    ⊎ Covers clip_start clip_end active rs

or_whole-KeepsFree :
    (a b : ℕ) (active : List Cut) (rs : List Range)
    → Covers a b active rs
    → KeepsFree a b active (or_whole a b rs)
or_whole-KeepsFree a b active [] h = inl (refl, h.complete)
or_whole-KeepsFree a b active (r ∷ rs) h = inr h

-- For a clip and cuts that are not reversed, what is kept is a list of ranges of the clip in order,
-- none shorter than 0.4 s, into none of which an active cut reaches, and which hold every stretch of
-- 0.4 s or more that no active cut reaches into. Only if there is no such stretch, it is the whole
-- clip.
pub keep_ranges-Covers :
    (clip_start clip_end : ℕ) (cuts : List Cut) (disabled : List ℕ)
    → clip_start ≤ clip_end
    → All (λ c. c.start ≤ c.end) cuts
    → KeepsFree clip_start clip_end
        (active_cuts clip_start clip_end cuts disabled)
        (keep_ranges clip_start clip_end cuts disabled)
unfolding keep_ranges
keep_ranges-Covers a b cuts disabled order forward =
    let active = active_cuts a b cuts disabled in
    let inside = active_cuts-IsInside a b cuts disabled forward in
    or_whole-KeepsFree a b active (keep_loop a b a active) (record {
      chain = keep_loop-IsChain a b a active (omega arith) order inside;
      avoids =
          keep_loop-Avoids a b a active (omega arith) order inside
            (active_cuts-SortedBy a b cuts disabled);
      complete = λ r h. keep_loop-Within a b a active r h.from h.long h.to h.free;
    })
