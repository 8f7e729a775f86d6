-- ===== src/Text/Starts.antt =====
-- A text that begins with a word still does when its blanks are squashed or its end is cut off.
use Prim.Native.String.{String, [], ◌∷◌, ◌++◌}
use clipgauge.Common.{
  ℕ, suc, ◌≡◌, refl, Bool, true, false, not, List, [], ◌∷◌, arith, if◌then◌else◌, All,
}
use clipgauge.Text.{
  is_space, is_blank, first_chars, onto_head, starts_word, split, join_words, squash,
}
use clipgauge.Text.Words.{IsWord, split-All, starts_word-append}

starts_word-join_words :
    (w : String) (ws : List String) → All IsWord (w ∷ ws) → starts_word (join_words (w ∷ ws)) ≡ true
unfolding join_words
starts_word-join_words [] ws h = absurd h.0
starts_word-join_words (c ∷ []) [] h = rw h.0 refl
starts_word-join_words (c ∷ d ∷ w) [] h = rw h.0.0 refl
starts_word-join_words (c ∷ w) (v ∷ vs) h = starts_word-append c w (" " ++ join_words (v ∷ vs)) h.0

-- A squashed text begins with a word, unless it is empty.
pub squash-starts_word : (s : String) → is_blank (squash s) ≡ false → starts_word (squash s) ≡ true
unfolding squash join_words
squash-starts_word s h = go (split s) (split-All s) h
  where
    go :
        (ws : List String)
        → All IsWord ws
        → is_blank (join_words ws) ≡ false
        → starts_word (join_words ws) ≡ true
    go [] k e = absurd (ground arith)
    go (w ∷ ws) k e = starts_word-join_words w ws k

pub starts_word→is_blank : (s : String) → starts_word s ≡ true → is_blank s ≡ false
starts_word→is_blank [] h = ground arith
starts_word→is_blank (c ∷ s) h = refl

-- A text that begins with a word does so when it is squashed.
pub starts_word-squash : (s : String) → starts_word s ≡ true → starts_word (squash s) ≡ true
unfolding squash split
starts_word-squash [] h = absurd (ground arith)
starts_word-squash (c ∷ s) h =
    go (split (c ∷ s)) (split-All (c ∷ s)) (some_word (is_space c) (starts_word s) h)
  where
    IsSome : List String → Type 0
    IsSome [] = ⊥
    IsSome (w ∷ ws) = Unit

    onto : (ws : List String) → IsSome (onto_head c ws)
    onto [] = tt
    onto (w ∷ ws) = tt

    some_word :
        (b d : Bool)
        → not b ≡ true
        → IsSome (if b then split s else if d then onto_head c (split s) else (c ∷ []) ∷ split s)
    some_word true d e = absurd (ground arith)
    some_word false true e = onto (split s)
    some_word false false e = tt

    go : (ws : List String) → All IsWord ws → IsSome ws → starts_word (join_words ws) ≡ true
    go [] k e = absurd e
    go (w ∷ ws) k e = starts_word-join_words w ws k

pub starts_word-first_chars :
    (n : ℕ) (s : String) → starts_word s ≡ true → starts_word (first_chars (suc n) s) ≡ true
unfolding first_chars
starts_word-first_chars n [] h = h
starts_word-first_chars n (c ∷ s) h = h
