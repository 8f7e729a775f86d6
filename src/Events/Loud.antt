-- ===== src/Events/Loud.antt =====
-- No loud frame is missed (`hysteresis_spans` of pipeline/clipgauge_pipeline/events/post.py).
use clipgauge.Common.{
  ℕ, zero, suc, ◌+◌, ◌≤◌, ◌<◌, ◌≡◌, max, some, List, [], ◌∷◌, arith, leb, get_elem?, Bool-cases,
  ◌⊎◌, inl, inr,
}
use clipgauge.Events.{Span, Tracking, outside, inside, hysteresis_from, hysteresis_spans}

-- A frame lies in one of the spans.
abbrev pub IsCovered : ℕ → List Span → Type 0
IsCovered j [] = ⊥
IsCovered j (s ∷ ss) = ((s.start ≤ j) × (j < s.end)) ⊎ IsCovered j ss

module _ (enter stay : ℕ) where
  tracked-IsCovered :
      (i start peak : ℕ) (ps : List ℕ) (j : ℕ)
      → start ≤ j
      → j < i
      → IsCovered j (hysteresis_from enter stay i (inside start peak) ps)
  unfolding hysteresis_from
  tracked-IsCovered i start peak [] j h k = inl (h, k)
  tracked-IsCovered i start peak (p ∷ ps) j h k = elim (Bool-cases (leb stay p)) [
    | inl e ↦ rw e (tracked-IsCovered (suc i) start (max peak p) ps j h (omega arith))
    | inr e ↦ rw e (inl (h, k))
  ]

  abbrev HasStarted : ℕ → Tracking → Type 0
  HasStarted i outside = Unit
  HasStarted i (inside start peak) = start ≤ i

  loud-IsCovered :
      (i : ℕ) (t : Tracking) (ps : List ℕ) (j p n : ℕ)
      → stay ≤ enter
      → HasStarted i t
      → get_elem? ps j ≡ some p
      → enter ≤ p
      → n ≡ i + j
      → IsCovered n (hysteresis_from enter stay i t ps)
  unfolding hysteresis_from
  loud-IsCovered i t [] j p n w h g l m = absurd (ground arith)
  loud-IsCovered i outside (q ∷ ps) zero p n w h g l m = elim (Bool-cases (leb enter q)) [
    | inl e ↦ rw e (tracked-IsCovered (suc i) i q ps n (omega arith) (omega arith))
    | inr e ↦ absurd (ground arith)
  ]
  loud-IsCovered i outside (q ∷ ps) (suc j) p n w h g l m = elim (Bool-cases (leb enter q)) [
    | inl e ↦ rw e (loud-IsCovered (suc i) (inside i q) ps j p n w (omega arith) g l (omega arith))
    | inr e ↦ rw e (loud-IsCovered (suc i) outside ps j p n w tt g l (omega arith))
  ]
  loud-IsCovered i (inside start peak) (q ∷ ps) zero p n w h g l m =
      elim (Bool-cases (leb stay q)) [
        | inl e ↦
            rw e (tracked-IsCovered (suc i) start (max peak q) ps n (omega arith) (omega arith))
        | inr e ↦ absurd (ground arith)
      ]
  loud-IsCovered i (inside start peak) (q ∷ ps) (suc j) p n w h g l m =
      elim (Bool-cases (leb stay q)) [
        | inl e ↦ rw e (
            loud-IsCovered (suc i) (inside start (max peak q)) ps j p n w (omega arith) g l
              (omega arith))
        | inr e ↦ rw e (inr (loud-IsCovered (suc i) outside ps j p n w tt g l (omega arith)))
      ]

  -- With a threshold to stay that is not above the one to enter, each frame whose posterior
  -- reaches the latter lies in a span.
  pub hysteresis_spans-IsCovered :
      (probs : List ℕ) (j p : ℕ)
      → stay ≤ enter
      → get_elem? probs j ≡ some p
      → enter ≤ p
      → IsCovered j (hysteresis_spans enter stay probs)
  unfolding hysteresis_spans
  hysteresis_spans-IsCovered probs j p w g l =
      loud-IsCovered 0 outside probs j p j w tt g l (omega arith)
