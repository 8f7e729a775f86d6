-- ===== src/Subtitles/Ordered.antt =====
-- The order of the cues that `_normalize` of pipeline/clipgauge_pipeline/transcripts/formats.py gives.
use clipgauge.Common.{
  ℕ, ◌≤◌, ◌<◌, ◌≡◌, ◌⊎◌, false, ◌||◌, List, [], ◌∷◌, arith, ltb, leb, if_ind, All, All-map, sort_by,
  SortedBy, sort_by-SortedBy,
}
use clipgauge.Text.{is_blank}
use clipgauge.Subtitles.{
  SubtitleCue, cut_last, bounded_end, add_cue, add_cues, turn, ordered_cues, normalize,
}

-- A cue with a length and a text, that ends within the duration, if that is known.
pub record IsUsable (duration : ℕ) (c : SubtitleCue) : Type 0 where
  pub has_length : c.start_ms < c.end_ms
  pub has_words : is_blank c.text ≡ false
  pub in_time : (duration ≡ 0) ⊎ (c.end_ms ≤ duration)

abbrev pub EndsBy : ℕ → List SubtitleCue → Type 0
EndsBy t [] = Unit
EndsBy t (p ∷ ps) = p.end_ms ≤ t

abbrev pub StartsBy : ℕ → List SubtitleCue → Type 0
StartsBy t [] = Unit
StartsBy t (p ∷ ps) = p.start_ms ≤ t

-- The last cue first.
abbrev pub AreBehind : ℕ → List SubtitleCue → Type 0
AreBehind d [] = Unit
AreBehind d (p ∷ ps) = IsUsable d p × EndsBy p.start_ms ps × AreBehind d ps

abbrev pub BeginsAt : ℕ → List SubtitleCue → Type 0
BeginsAt t [] = Unit
BeginsAt t (p ∷ ps) = t ≤ p.start_ms

-- The first cue first: each ends before the next one starts.
abbrev pub AreApart : ℕ → List SubtitleCue → Type 0
AreApart d [] = Unit
AreApart d (p ∷ ps) = IsUsable d p × BeginsAt p.end_ms ps × AreApart d ps

module _ (d : ℕ) where
  cut_last-AreBehind :
      (output : List SubtitleCue) (t : ℕ)
      → AreBehind d output
      → StartsBy t output
      → AreBehind d (cut_last output t) × EndsBy t (cut_last output t)
  cut_last-AreBehind [] t h s = (tt, tt)
  cut_last-AreBehind (p ∷ ps) t (u, e, h) s =
      if_ind (λ xs. AreBehind d xs × EndsBy t xs) (ltb t p.end_ms)
        (λ over.
          if_ind (λ xs. AreBehind d xs × EndsBy t xs) (leb t p.start_ms)
            (λ none_left. (h, later ps e))
            (λ rest. (
              (
                record {
                  has_length = ground arith;
                  has_words = u.has_words;
                  in_time = ground (arith, u.in_time, over);
                },
                e,
                h,
              ),
              omega arith,
            )))
        (λ before. ((u, e, h), ground arith))
    where
      later : (qs : List SubtitleCue) → EndsBy p.start_ms qs → EndsBy t qs
      later [] k = tt
      later (q ∷ qs) k = omega (arith, k, s)

  add_cue-AreBehind :
      (output : List SubtitleCue) (c : SubtitleCue)
      → AreBehind d output
      → StartsBy c.start_ms output
      → AreBehind d (add_cue d output c) × StartsBy c.start_ms (add_cue d output c)
  add_cue-AreBehind output c h s =
      if_ind (λ xs. AreBehind d xs × StartsBy c.start_ms xs)
        (leb (bounded_end d c) c.start_ms || is_blank c.text) (λ _. (h, s))
        (λ good.
          let cut = cut_last-AreBehind output c.start_ms h s in
          (
            (
              record {
                has_length = ground (arith, good);
                has_words = ground (arith, good);
                in_time = ground arith;
              },
              cut.1,
              cut.0,
            ),
            omega arith,
          ))

  add_cues-AreBehind :
      (output cues : List SubtitleCue)
      → AreBehind d output
      → SortedBy (λ c. c.start_ms) cues
      → All (λ c. StartsBy c.start_ms output) cues
      → AreBehind d (add_cues d output cues)
  unfolding add_cues
  add_cues-AreBehind output [] h sorted s = h
  add_cues-AreBehind output (c ∷ cs) h (first, sorted) (s, rest) =
      let added = add_cue-AreBehind output c h s in
      add_cues-AreBehind (add_cue d output c) cs added.0 sorted (
        All-map (λ e. c.start_ms ≤ e.start_ms) (λ e. StartsBy e.start_ms (add_cue d output c)) cs
          (λ e le. later (add_cue d output c) e le added.1) first)
    where
      later :
          (xs : List SubtitleCue) (e : SubtitleCue)
          → c.start_ms ≤ e.start_ms
          → StartsBy c.start_ms xs
          → StartsBy e.start_ms xs
      later [] e le k = tt
      later (x ∷ xs) e le k = omega (arith, le, k)

  abbrev Meet : List SubtitleCue → List SubtitleCue → Type 0
  Meet [] done = Unit
  Meet (p ∷ ps) done = BeginsAt p.end_ms done

  turn-AreApart :
      (behind done : List SubtitleCue)
      → AreBehind d behind
      → AreApart d done
      → Meet behind done
      → AreApart d (turn behind done)
  turn-AreApart [] done h k m = k
  turn-AreApart (p ∷ ps) done (u, e, h) k m = turn-AreApart ps (p ∷ done) h (u, m, k) (next ps e)
    where
      next : (qs : List SubtitleCue) → EndsBy p.start_ms qs → Meet qs (p ∷ done)
      next [] e = tt
      next (q ∷ qs) e = e

  -- Whatever the cues of a file: the normalised ones have a length and a text, end within the
  -- duration if it is known, and each ends before the next one starts.
  pub normalize-AreApart : (cues : List SubtitleCue) → AreApart d (normalize cues d)
  unfolding normalize ordered_cues
  normalize-AreApart cues =
      turn-AreApart (add_cues d [] (ordered_cues cues)) []
        (add_cues-AreBehind [] (ordered_cues cues) tt
          (sort_by-SortedBy (λ c. c.start_ms) (sort_by (λ c. c.end_ms) cues))
          (nothing_before (ordered_cues cues)))
        tt (nothing_behind (add_cues d [] (ordered_cues cues)))
    where
      nothing_before : (cs : List SubtitleCue) → All (λ c. StartsBy c.start_ms []) cs
      nothing_before [] = tt
      nothing_before (c ∷ cs) = (tt, nothing_before cs)

      nothing_behind : (cs : List SubtitleCue) → Meet cs []
      nothing_behind [] = tt
      nothing_behind (c ∷ cs) = tt
