-- ===== src/Events/Separate.antt =====
-- The spans of an event are long, loud and apart (pipeline/clipgauge_pipeline/events/post.py).
use clipgauge.Common.{
  ℕ, suc, ◌+◌, ◌-◌, ◌*◌, ◌≤◌, ◌<◌, ◌≡◌, subst, max, List, [], ◌∷◌, arith, leb, leb→le, length,
  if_ind, All, All-map, Bool-cases, inl, inr,
}
use clipgauge.Events.{
  Span, Tracking, outside, inside, enter_threshold, stay_threshold, hysteresis_from,
  hysteresis_spans, is_close, joined, merge_from, merge_close, is_long, drop_short, postprocess,
  median_filter,
}

-- Not empty, in order between two frames, and with a peak that reaches the threshold.
abbrev pub IsOrdered : ℕ → ℕ → List Span → Type 0
IsOrdered lo hi [] = Unit
IsOrdered lo hi (s ∷ ss) =
    (lo ≤ s.start)
    × (s.start < s.end)
    × (s.end ≤ hi)
    × (enter_threshold ≤ s.peak)
    × IsOrdered s.end hi ss

-- Where the loop may stand before frame `i`.
abbrev IsTracking : ℕ → ℕ → Tracking → Type 0
IsTracking lo i outside = lo ≤ i
IsTracking lo i (inside start peak) = (lo ≤ start) × (start < i) × (enter_threshold ≤ peak)

hysteresis_from-IsOrdered :
    (lo hi i : ℕ) (t : Tracking) (ps : List ℕ)
    → IsTracking lo i t
    → i + length ps ≤ hi
    → IsOrdered lo hi (hysteresis_from enter_threshold stay_threshold i t ps)
unfolding hysteresis_from
hysteresis_from-IsOrdered lo hi i outside [] h n = tt
hysteresis_from-IsOrdered lo hi i (inside start peak) [] h n = (h.0, h.1, omega arith, h.2, tt)
hysteresis_from-IsOrdered lo hi i outside (p ∷ ps) h n = elim (Bool-cases (leb enter_threshold p)) [
  | inl e ↦ rw e (
      hysteresis_from-IsOrdered lo hi (suc i) (inside i p) ps
        (h, omega arith, leb→le enter_threshold p e) (omega arith))
  | inr e ↦ rw e (hysteresis_from-IsOrdered lo hi (suc i) outside ps (omega arith) (omega arith))
]
hysteresis_from-IsOrdered lo hi i (inside start peak) (p ∷ ps) h n =
    elim (Bool-cases (leb stay_threshold p)) [
      | inl e ↦ rw e (
          hysteresis_from-IsOrdered lo hi (suc i) (inside start (max peak p)) ps
            (h.0, omega (arith, h.1), omega (arith, h.2)) (omega arith))
      | inr e ↦ rw e (
        h.0,
        h.1,
        omega arith,
        h.2,
        hysteresis_from-IsOrdered i hi (suc i) outside ps (omega arith) (omega arith),
      )
    ]

module _ (fps : ℕ) where
  -- More than 0.32 s between the end of one span and the start of the other.
  abbrev pub IsFar : Span → Span → Type 0
  IsFar s t = 32 * fps < 100 * (t.start - s.end)

  abbrev pub AreFar : List Span → Type 0
  AreFar [] = Unit
  AreFar (s ∷ ss) = All (IsFar s) ss × AreFar ss

  -- What is kept of a single span.
  abbrev pub IsSpan : ℕ → Span → Type 0
  IsSpan hi s = (s.start < s.end) × (s.end ≤ hi) × (enter_threshold ≤ s.peak)

  -- Every span starts a given distance behind a frame.
  abbrev StartsBehind : ℕ → Span → Type 0
  StartsBehind t s = t ≤ s.start

  joined-IsOrdered :
      (hi : ℕ) (last s : Span) (ss : List Span)
      → last.end ≤ s.end
      → IsOrdered s.end hi ss
      → IsOrdered (joined fps last s).end hi ss
  joined-IsOrdered hi last s ss h o =
      let same : s.end ≡ max last.end s.end = omega arith in subst (λ m. IsOrdered m hi ss) same o

  merge_from-ge :
      (t hi : ℕ) (last : Span) (ss : List Span)
      → t ≤ last.start
      → last.start < last.end
      → IsOrdered last.end hi ss
      → All (StartsBehind t) (merge_from fps last ss)
  unfolding merge_from
  merge_from-ge t hi last [] h k o = (h, tt)
  merge_from-ge t hi last (s ∷ ss) h k o = elim (Bool-cases (is_close fps last s)) [
    | inl e ↦ rw e (
        merge_from-ge t hi (joined fps last s) ss h (omega (arith, o.0, o.1))
          (joined-IsOrdered hi last s ss (omega (arith, o.0, o.1)) o.4))
    | inr e ↦ rw e (h, merge_from-ge t hi s ss (omega (arith, o.0)) o.1 o.4)
  ]

  merge_from_sound :
      (hi : ℕ) (last : Span) (ss : List Span)
      → IsSpan hi last
      → IsOrdered last.end hi ss
      → All (IsSpan hi) (merge_from fps last ss) × AreFar (merge_from fps last ss)
  unfolding merge_from
  merge_from_sound hi last [] v o = ((v, tt), (tt, tt))
  merge_from_sound hi last (s ∷ ss) v o = elim (Bool-cases (is_close fps last s)) [
    | inl e ↦ rw e (
        merge_from_sound hi (joined fps last s) ss
          (omega (arith, v.0, o.0, o.1), omega (arith, v.1, o.2), omega (arith, v.2))
          (joined-IsOrdered hi last s ss (omega (arith, o.0, o.1)) o.4))
    | inr e ↦
        let rest = merge_from_sound hi s ss (o.1, o.2, o.3) o.4 in
        let behind = merge_from-ge s.start hi s ss (omega arith) o.1 o.4 in
        let gap : 32 * fps < 100 * (s.start - last.end) = ground arith in
        rw e (
          (v, rest.0),
          (
            All-map (StartsBehind s.start) (IsFar last) (merge_from fps s ss) (λ t le. omega arith)
                behind,
            rest.1,
          ),
        )
  ]

  merge_close_sound :
      (hi : ℕ) (ss : List Span)
      → IsOrdered 0 hi ss
      → All (IsSpan hi) (merge_close fps ss) × AreFar (merge_close fps ss)
  unfolding merge_close
  merge_close_sound hi [] o = (tt, tt)
  merge_close_sound hi (s ∷ ss) o = merge_from_sound hi s ss (o.1, o.2, o.3) o.4

  drop_short-All : (P : Span → Type 0) (ss : List Span) → All P ss → All P (drop_short fps ss)
  unfolding drop_short
  drop_short-All P [] h = tt
  drop_short-All P (s ∷ ss) h =
      if_ind (All P) (is_long fps s) (λ _. (h.0, drop_short-All P ss h.1))
        (λ _. drop_short-All P ss h.1)

  drop_short-AreFar : (ss : List Span) → AreFar ss → AreFar (drop_short fps ss)
  unfolding drop_short
  drop_short-AreFar [] h = tt
  drop_short-AreFar (s ∷ ss) h =
      if_ind AreFar (is_long fps s)
        (λ _. (drop_short-All (IsFar s) ss h.0, drop_short-AreFar ss h.1))
        (λ _. drop_short-AreFar ss h.1)

  -- 0.2 s or more
  abbrev pub IsLong : Span → Type 0
  IsLong s = 2 * fps ≤ 10 * (s.end - s.start)

  drop_short-IsLong : (ss : List Span) → All IsLong (drop_short fps ss)
  unfolding drop_short
  drop_short-IsLong [] = tt
  drop_short-IsLong (s ∷ ss) =
      if_ind (All IsLong) (is_long fps s)
        (λ e. (leb→le (2 * fps) (10 * (s.end - s.start)) e, drop_short-IsLong ss))
        (λ _. drop_short-IsLong ss)

  -- At the default thresholds, and whatever the median filter gives: the spans of an event are not
  -- empty, end with the filtered frames, reach the threshold to enter, last 0.2 s or more, and any
  -- two of them are more than 0.32 s apart, in order.
  pub postprocess_sound :
      (medfilt : ℕ → List ℕ → List ℕ) (probs : List ℕ)
      → All
          (IsSpan (length (median_filter fps medfilt probs)))
          (postprocess fps medfilt enter_threshold stay_threshold probs)
        × All IsLong (postprocess fps medfilt enter_threshold stay_threshold probs)
        × AreFar (postprocess fps medfilt enter_threshold stay_threshold probs)
  unfolding postprocess hysteresis_spans
  postprocess_sound medfilt probs =
      let filtered = median_filter fps medfilt probs in
      let hi = length filtered in
      let spans = hysteresis_spans enter_threshold stay_threshold filtered in
      let o = hysteresis_from-IsOrdered 0 hi 0 outside filtered (omega arith) (omega arith) in
      let m = merge_close_sound hi spans o in
      (
        drop_short-All (IsSpan hi) (merge_close fps spans) m.0,
        drop_short-IsLong (merge_close fps spans),
        drop_short-AreFar (merge_close fps spans) m.1,
      )
