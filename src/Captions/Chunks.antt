-- ===== src/Captions/Chunks.antt =====
-- The chunks that `chunk_words` of pipeline/clipgauge_pipeline/captions/ass.py makes.
use mathlib.Core.List.{append_assoc}
use clipgauge.Common.{
  ◌+◌, ◌≤◌, ◌<◌, ◌≡◌, refl, ap, ◌∙◌, false, List, [], ◌∷◌, ◌++◌, arith, length, length-append,
  if_ind, All,
}
use clipgauge.Captions.{
  CaptionWord, chunk_max_words, chunk_pause_break_ms, ends_clause, should_break, chunk_from,
  chunk_words,
}

-- The first of two words lets the second one stand in its chunk.
abbrev pub GoesOn : CaptionWord → CaptionWord → Type 0
GoesOn w v = (ends_clause w ≡ false) × (v.start_ms ≤ w.end_ms + chunk_pause_break_ms)

abbrev pub IsUnbroken : List CaptionWord → Type 0
IsUnbroken [] = Unit
IsUnbroken (w ∷ []) = Unit
IsUnbroken (w ∷ v ∷ ws) = GoesOn w v × IsUnbroken (v ∷ ws)

pub record IsChunk (ws : List CaptionWord) : Type 0 where
  pub some_words : 0 < length ws
  pub few_words : length ws ≤ chunk_max_words
  pub unbroken : IsUnbroken ws

-- The last word of a chunk lets another one follow.
abbrev Joins : List CaptionWord → CaptionWord → Type 0
Joins [] v = Unit
Joins (w ∷ []) v = GoesOn w v
Joins (w ∷ u ∷ ws) v = Joins (u ∷ ws) v

abbrev JoinsNext : List CaptionWord → List CaptionWord → Type 0
JoinsNext ws [] = Unit
JoinsNext ws (v ∷ vs) = Joins ws v

IsUnbroken-append :
    (ws : List CaptionWord) (v : CaptionWord)
    → IsUnbroken ws
    → Joins ws v
    → IsUnbroken (ws ++ v ∷ [])
IsUnbroken-append [] v h j = tt
IsUnbroken-append (w ∷ []) v h j = (j, tt)
IsUnbroken-append (w ∷ u ∷ ws) v (g, h) j = (g, IsUnbroken-append (u ∷ ws) v h j)

Joins-append : (ws : List CaptionWord) (w v : CaptionWord) → GoesOn w v → Joins (ws ++ w ∷ []) v
Joins-append [] w v g = g
Joins-append (u ∷ []) w v g = g
Joins-append (u ∷ t ∷ ws) w v g = Joins-append (t ∷ ws) w v g

going_on :
    (current : List CaptionWord) (w : CaptionWord) (later : List CaptionWord)
    → should_break (current ++ w ∷ []) w later ≡ false
    → JoinsNext (current ++ w ∷ []) later
going_on current w [] h = tt
going_on current w (v ∷ vs) h = Joins-append current w v (ground (arith, h), ground (arith, h))

chunk_from-All :
    (current words : List CaptionWord)
    → length current < chunk_max_words
    → IsUnbroken current
    → JoinsNext current words
    → All IsChunk (chunk_from current words)
unfolding chunk_from
chunk_from-All [] [] few h j = tt
chunk_from-All (c ∷ cs) [] few h j =
    (record { some_words = ground arith; few_words = omega (arith, few); unbroken = h }, tt)
chunk_from-All current (w ∷ ws) few h j =
    if_ind (All IsChunk) (should_break (current ++ w ∷ []) w ws)
      (λ _. (
        record {
          some_words = ground (arith, length-append current (w ∷ []));
          few_words = ground (arith, length-append current (w ∷ []), few);
          unbroken = IsUnbroken-append current w h j;
        },
        chunk_from-All [] ws (ground arith) tt (nothing ws),
      ))
      (λ more.
        chunk_from-All (current ++ w ∷ []) ws (ground (arith, more))
          (IsUnbroken-append current w h j) (going_on current w ws more))
  where
    nothing : (vs : List CaptionWord) → JoinsNext [] vs
    nothing [] = tt
    nothing (v ∷ vs) = tt

abbrev pub all_words : List (List CaptionWord) → List CaptionWord
all_words [] = []
all_words (c ∷ cs) = c ++ all_words cs

chunk_from-all_words :
    (current words : List CaptionWord) → all_words (chunk_from current words) ≡ current ++ words
unfolding chunk_from
chunk_from-all_words [] [] = refl
chunk_from-all_words (c ∷ cs) [] = refl
chunk_from-all_words current (w ∷ ws) =
    if_ind (λ cs. all_words cs ≡ current ++ w ∷ ws) (should_break (current ++ w ∷ []) w ws)
      (λ _.
        ap (λ xs. current ++ w ∷ [] ++ xs) (chunk_from-all_words [] ws)
        ∙ append_assoc current (w ∷ []) ws)
      (λ _. chunk_from-all_words (current ++ w ∷ []) ws ∙ append_assoc current (w ∷ []) ws)

-- The chunks, put together, are the words again; each has at least one word and at most four; and
-- inside of one no word but the last ends a clause or is followed by a pause above 0.6 s.
pub chunk_words-All :
    (words : List CaptionWord)
    → (all_words (chunk_words words) ≡ words) × All IsChunk (chunk_words words)
unfolding chunk_words
chunk_words-All words =
    (chunk_from-all_words [] words, chunk_from-All [] words (ground arith) tt (nothing words))
  where
    nothing : (vs : List CaptionWord) → JoinsNext [] vs
    nothing [] = tt
    nothing (v ∷ vs) = tt
