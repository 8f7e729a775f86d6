-- ===== src/Subtitles/Kept.antt =====
-- `_normalize` of pipeline/clipgauge_pipeline/transcripts/formats.py, on cues that are in order.
use clipgauge.Common.{
  ℕ, ◌≤◌, ◌≡◌, refl, false, List, [], ◌∷◌, arith, leb, All, All-map, SortedBy, sort_by-sorted,
}
use clipgauge.Subtitles.{
  SubtitleCue, cut_last, bounded_end, add_cue, add_cues, turn, ordered_cues, normalize,
}
use clipgauge.Subtitles.Ordered.{IsUsable, EndsBy, BeginsAt, AreApart}

module _ (d : ℕ) where
  later_cues :
      (t : ℕ) (cues : List SubtitleCue)
      → BeginsAt t cues
      → AreApart d cues
      → All (λ c. (t ≤ c.start_ms) × (t ≤ c.end_ms)) cues
  later_cues t [] b h = tt
  later_cues t (c ∷ cs) b (u, e, h) =
      ((b, omega (arith, u.has_length)), later_cues t cs (next cs e) h)
    where
      next : (ds : List SubtitleCue) → BeginsAt c.end_ms ds → BeginsAt t ds
      next [] e = tt
      next (f ∷ ds) e = omega (arith, u.has_length, e)

  AreApart-SortedBy :
      (cues : List SubtitleCue)
      → AreApart d cues
      → SortedBy (λ c. c.start_ms) cues × SortedBy (λ c. c.end_ms) cues
  AreApart-SortedBy [] h = (tt, tt)
  AreApart-SortedBy (c ∷ cs) (u, e, h) =
      let later = later_cues c.end_ms cs e h in
      let rest = AreApart-SortedBy cs h in
      (
        (
          All-map (λ f. (c.end_ms ≤ f.start_ms) × (c.end_ms ≤ f.end_ms))
              (λ f. c.start_ms ≤ f.start_ms) cs (λ f k. omega (arith, k.0, u.has_length)) later,
          rest.0,
        ),
        (
          All-map (λ f. (c.end_ms ≤ f.start_ms) × (c.end_ms ≤ f.end_ms)) (λ f. c.end_ms ≤ f.end_ms)
              cs (λ f k. k.1) later,
          rest.1,
        ),
      )

  cut_last_before :
      (output : List SubtitleCue) (t : ℕ) → EndsBy t output → cut_last output t ≡ output
  cut_last_before [] t h = refl
  cut_last_before (p ∷ ps) t h = ground arith

  add_usable :
      (output : List SubtitleCue) (c : SubtitleCue)
      → IsUsable d c
      → EndsBy c.start_ms output
      → add_cue d output c ≡ c ∷ output
  add_usable output c u h =
      rw (same_end, long, u.has_words, cut_last_before output c.start_ms h) refl
    where
      same_end : bounded_end d c ≡ c.end_ms
      same_end = ground (arith, u.in_time)

      long : leb c.end_ms c.start_ms ≡ false
      long = ground (arith, u.has_length)

  abbrev Follow : List SubtitleCue → List SubtitleCue → Type 0
  Follow output [] = Unit
  Follow output (c ∷ cs) = EndsBy c.start_ms output

  add_cues_apart :
      (output cues : List SubtitleCue)
      → AreApart d cues
      → Follow output cues
      → turn (add_cues d output cues) [] ≡ turn output cues
  unfolding add_cues
  add_cues_apart output [] h f = refl
  add_cues_apart output (c ∷ cs) (u, e, h) f =
      rw (add_usable output c u f) (add_cues_apart (c ∷ output) cs h (next cs e))
    where
      next : (ds : List SubtitleCue) → BeginsAt c.end_ms ds → Follow (c ∷ output) ds
      next [] e = tt
      next (g ∷ ds) e = e

  -- Cues that have a length and a text, end within the duration if it is known, and each end before
  -- the next one starts, are kept, all of them and in their order.
  pub normalize-kept : (cues : List SubtitleCue) → AreApart d cues → normalize cues d ≡ cues
  unfolding normalize ordered_cues
  normalize-kept cues h =
      let sorted = AreApart-SortedBy cues h in
      rw
        (
          sort_by-sorted (λ c. c.end_ms) cues sorted.1,
          sort_by-sorted (λ c. c.start_ms) cues sorted.0,
        )
        (add_cues_apart [] cues h (nothing cues))
    where
      nothing : (cs : List SubtitleCue) → Follow [] cs
      nothing [] = tt
      nothing (c ∷ cs) = tt
