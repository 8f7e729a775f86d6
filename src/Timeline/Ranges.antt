-- ===== src/Timeline/Ranges.antt =====
-- `keep_ranges`: what is left of a clip when its cuts are taken out.
pub mod Cover
use clipgauge.Common.{
  ℕ, zero, suc, ◌+◌, ◌-◌, max, min, Bool, true, false, ◌&&◌, not, List, [], ◌∷◌, ◌++◌, ltb, leb,
  ◌==◌, if◌then◌else◌, sort_by,
}
use clipgauge.Timeline.Cuts.{Cut}

abbrev pub min_keep_range : ℕ
min_keep_range = 400

pub record Range : Type 0 where
  pub start : ℕ
  pub end : ℕ

unfoldable pub is_disabled : ℕ → List ℕ → Bool
is_disabled i [] = false
is_disabled i (d ∷ ds) = let rest = is_disabled i ds in if d == i then true else rest

abbrev pub is_active : ℕ → ℕ → List ℕ → ℕ → Cut → Bool
is_active clip_start clip_end disabled i c =
    not c.kept && not (is_disabled i disabled) && ltb clip_start c.end && ltb c.start clip_end

-- The comprehension over `enumerate(cuts)`, from index `i` on.
unfoldable pub active_from : ℕ → ℕ → List ℕ → ℕ → List Cut → List Cut
unfolding is_disabled
active_from clip_start clip_end disabled i [] = []
active_from clip_start clip_end disabled i (c ∷ cs) =
    let rest = active_from clip_start clip_end disabled (suc i) cs in
    if is_active clip_start clip_end disabled i c then c ∷ rest else rest

unfoldable pub active_cuts : ℕ → ℕ → List Cut → List ℕ → List Cut
unfolding active_from sort_by
active_cuts clip_start clip_end cuts disabled =
    sort_by (λ c. c.start) (active_from clip_start clip_end disabled 0 cuts)

-- A piece is kept only if it is long enough.
abbrev pub keep_piece : ℕ → ℕ → List Range → List Range
keep_piece a b rest =
    if leb min_keep_range (b - a) then record { start = a; end = b } ∷ rest else rest

unfoldable pub keep_loop : ℕ → ℕ → ℕ → List Cut → List Range
keep_loop clip_start clip_end cursor [] = keep_piece cursor clip_end []
keep_loop clip_start clip_end cursor (c ∷ cs) =
    keep_piece cursor (max clip_start c.start)
      (keep_loop clip_start clip_end (max cursor (min clip_end c.end)) cs)

abbrev pub or_whole : ℕ → ℕ → List Range → List Range
or_whole clip_start clip_end [] = record { start = clip_start; end = clip_end } ∷ []
or_whole clip_start clip_end (r ∷ rs) = r ∷ rs

unfoldable pub keep_ranges : ℕ → ℕ → List Cut → List ℕ → List Range
unfolding keep_loop active_cuts
keep_ranges clip_start clip_end cuts disabled =
    or_whole clip_start clip_end
      (keep_loop clip_start clip_end clip_start (active_cuts clip_start clip_end cuts disabled))
