-- ===== src/Asr/Batches.antt =====
-- The sizes of the batches, `_batch_sequence` of pipeline/clipgauge_pipeline/asr/stage.py.
use mathlib.Core.List.{append_assoc}
use clipgauge.Common.{
  ℕ, zero, suc, ◌+◌, ◌/◌, ◌≤◌, ◌<◌, max, ◌≡◌, refl, ap, ◌∙◌, inl, inr, true, false, some, List, [],
  ◌∷◌, ◌++◌, ◌==◌, arith, All, All-map, All-append, Bool-cases,
}
use clipgauge.Asr.{is_member, batches_from, batch_sequence}

-- The list starts with `c`, halves from one item to the next, and ends with 1.
abbrev pub Halves : ℕ → List ℕ → Type 0
Halves c [] = ⊥
Halves c (b ∷ []) = (b ≡ c) × (c ≡ 1)
Halves c (b ∷ d ∷ bs) = (b ≡ c) × (1 < c) × Halves (c / 2) (d ∷ bs)

is_member_below : (c : ℕ) (values : List ℕ) → All (λ v. c < v) values → is_member c values ≡ false
is_member_below c [] h = refl
is_member_below c (v ∷ vs) h = ground (arith, h.0, is_member_below c vs h.1)

is_member_end : (c : ℕ) (values : List ℕ) → is_member c (values ++ c ∷ []) ≡ true
is_member_end c [] = ground arith
is_member_end c (v ∷ vs) = ground (arith, is_member_end c vs)

Halves-cons : (c : ℕ) (rest : List ℕ) → 1 < c → Halves (c / 2) rest → Halves c (c ∷ rest)
Halves-cons c [] more h = elim h [ ]
Halves-cons c (d ∷ rest) more h = (refl, more, h)

halving_ends : (c : ℕ) → c ≡ 1 → max 1 (c / 2) ≡ c
halving_ends c e = rw e refl

-- The loop ends if the fuel is two more than the size.
batches_from-Halves :
    (fuel c : ℕ) (values : List ℕ)
    → c < fuel
    → 1 ≤ c
    → All (λ v. c < v) values
    → (rest : List ℕ) × (batches_from (suc fuel) c values ≡ some (values ++ rest)) × Halves c rest
unfolding batches_from
batches_from-Halves zero c values fits pos above = elim (none_below fits) [ ]
  where
    none_below : c < 0 → ⊥
    none_below h = omega arith
batches_from-Halves (suc fuel) c values fits pos above = elim (Bool-cases (c == 1)) [
  | inl one ↦ (
    c ∷ [],
    rw
        (
          is_member_below c values above,
          halving_ends c (ground (arith, one)),
          is_member_end c values,
        )
        refl,
    (refl, ground (arith, one)),
  )
  | inr many ↦
      extend
        (batches_from-Halves fuel (c / 2) (values ++ c ∷ []) (ground (arith, fits, many))
          (ground (arith, many))
          (All-append (λ v. c / 2 < v) values (c ∷ [])
            (All-map (λ v. c < v) (λ v. c / 2 < v) values (λ v h. omega (arith, h)) above)
            (omega (arith, pos), tt)))
        (ground (arith, many))
]
  where
    extend :
        (rest : List ℕ) × (batches_from (suc fuel) (c / 2) (values ++ c ∷ [])
            ≡ some (values ++ c ∷ [] ++ rest))
          × Halves (c / 2) rest
        → 1 < c
        → (rest : List ℕ) × (batches_from (suc (suc fuel)) c values ≡ some (values ++ rest))
          × Halves c rest
    extend (rest, e, h) more = (
      c ∷ rest,
      rw (is_member_below c values above, large more)
          (e ∙ ap some (append_assoc values (c ∷ []) rest)),
      Halves-cons c rest more h,
    )
      where
        large : 1 < c → max 1 (c / 2) ≡ c / 2
        large more = ground (arith, more)

-- The sequence of the sizes is found: it starts with the given size, or with 1 for 0, each size is
-- half of the one before, and it ends with 1.
pub batch_sequence-Halves :
    (initial : ℕ)
    → (sizes : List ℕ) × (batch_sequence initial ≡ some sizes) × Halves (max 1 initial) sizes
unfolding batch_sequence
batch_sequence-Halves initial =
    batches_from-Halves (initial + 2) (max 1 initial) [] (ground arith) (ground arith) tt
