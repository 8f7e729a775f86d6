-- ===== src/Text/Words.antt =====
-- `" ".join(s.split())`, which leaves one blank between the words of a text.
use Prim.Native.Char.{Char}
use Prim.Native.String.{String, [], ◌∷◌, ◌++◌}
use text.Mathlib.TextLemmas.{nil-append, cons-append, append-nil}
use clipgauge.Common.{
  ℕ, zero, suc, ◌+◌, ◌≤◌, ◌≡◌, refl, ap, sym, ◌∙◌, Bool, true, false, not, List, [], ◌∷◌, arith,
  All, if_ind,
}
use clipgauge.Text.{
  is_space, first_chars, char_count, onto_head, starts_word, split, join_words, squash,
}

-- A word: not empty, and without a blank.
abbrev pub IsWord : String → Type 0
IsWord [] = ⊥
IsWord (c ∷ []) = is_space c ≡ false
IsWord (c ∷ d ∷ w) = (is_space c ≡ false) × IsWord (d ∷ w)

IsWord-cons : (c : Char) (w : String) → is_space c ≡ false → IsWord w → IsWord (c ∷ w)
IsWord-cons c [] h k = absurd k
IsWord-cons c (d ∷ w) h k = (h, k)

onto_head-All :
    (c : Char) (ws : List String) → is_space c ≡ false → All IsWord ws → All IsWord (onto_head c ws)
onto_head-All c [] h k = (h, tt)
onto_head-All c (w ∷ ws) h k = (IsWord-cons c w h k.0, k.1)

pub split-All : (s : String) → All IsWord (split s)
unfolding split
split-All [] = tt
split-All (c ∷ s) =
    if_ind (All IsWord) (is_space c) (λ _. split-All s)
      (λ h.
        if_ind (All IsWord) (starts_word s) (λ _. onto_head-All c (split s) h (split-All s))
          (λ _. (h, split-All s)))

pub starts_word-append :
    (c : Char) (w t : String) → IsWord (c ∷ w) → starts_word ((c ∷ w) ++ t) ≡ true
starts_word-append c [] t h = rw (cons-append c [] t, h) refl
starts_word-append c (d ∷ w) t h = rw (cons-append c (d ∷ w) t, h.0) refl

-- A word in front of a text that does not go on with it.
split-word : (w t : String) → IsWord w → starts_word t ≡ false → split (w ++ t) ≡ w ∷ split t
unfolding split
split-word [] t h k = absurd h
split-word (c ∷ []) t h k = rw (cons-append c [] t, nil-append t, h, k) refl
split-word (c ∷ d ∷ w) t h k =
    rw (cons-append c (d ∷ w) t, h.0, starts_word-append d w t h.1, split-word (d ∷ w) t h.1 k) refl

starts_word-blank : (t : String) → starts_word (" " ++ t) ≡ false
unfolding is_space
starts_word-blank t = rw (cons-append _ [] t) refl

split-blank : (t : String) → split (" " ++ t) ≡ split t
unfolding split is_space
split-blank t = ap split (cons-append _ [] t) ∙ ap (λ (s : String). split (" " ∷ s)) (nil-append t)

split-join_words : (ws : List String) → All IsWord ws → split (join_words ws) ≡ ws
unfolding join_words split
split-join_words [] h = refl
split-join_words (w ∷ []) h = ap split (sym (append-nil w)) ∙ split-word w [] h.0 refl
split-join_words (w ∷ v ∷ vs) h =
    let rest = split-join_words (v ∷ vs) h.1 in
    split-word w (" " ++ join_words (v ∷ vs)) h.0 (starts_word-blank (join_words (v ∷ vs)))
    ∙ ap (λ r. w ∷ r) (split-blank (join_words (v ∷ vs)) ∙ rest)

-- Squashing twice is squashing once.
pub squash-squash : (s : String) → squash (squash s) ≡ squash s
unfolding squash
squash-squash s = ap join_words (split-join_words (split s) (split-All s))

weight : List String → ℕ
weight [] = 0
weight (w ∷ []) = char_count w
weight (w ∷ v ∷ vs) = char_count w + suc (weight (v ∷ vs))

char_count-append : (s t : String) → char_count (s ++ t) ≡ char_count s + char_count t
char_count-append [] t = rw (nil-append t) (omega arith)
char_count-append (c ∷ s) t = rw (cons-append c s t) (omega (arith, char_count-append s t))

char_count-join_words : (ws : List String) → char_count (join_words ws) ≡ weight ws
unfolding join_words weight
char_count-join_words [] = refl
char_count-join_words (w ∷ []) = refl
char_count-join_words (w ∷ v ∷ vs) = omega (
  arith,
  char_count-append w (" " ++ join_words (v ∷ vs)),
  char_count-append " " (join_words (v ∷ vs)),
  char_count-join_words (v ∷ vs),
)

weight-onto_head : (c : Char) (ws : List String) → weight (onto_head c ws) ≤ suc (weight ws)
unfolding weight
weight-onto_head c [] = omega arith
weight-onto_head c (w ∷ []) = omega arith
weight-onto_head c (w ∷ v ∷ vs) = omega arith

weight-cons : (w : String) (ws : List String) → weight (w ∷ ws) ≤ char_count w + suc (weight ws)
unfolding weight
weight-cons w [] = omega arith
weight-cons w (v ∷ vs) = omega arith

not-false : (b : Bool) → not b ≡ false → b ≡ true
not-false true h = refl
not-false false h = ground arith

weight-split : (s : String) → weight (split s) ≤ char_count s
unfolding split weight
weight-split [] = omega arith
weight-split (c ∷ []) =
    if_ind (λ ws. weight ws ≤ 1) (is_space c) (λ _. omega arith) (λ _. omega arith)
weight-split (c ∷ d ∷ s) =
    if_ind (λ ws. weight ws ≤ char_count (c ∷ d ∷ s)) (is_space c)
      (λ _. omega (arith, weight-split (d ∷ s)))
      (λ _.
        if_ind (λ ws. weight ws ≤ char_count (c ∷ d ∷ s)) (not (is_space d))
          (λ _. omega (arith, weight-onto_head c (split (d ∷ s)), weight-split (d ∷ s)))
          (λ h.
            rw (not-false (is_space d) h)
              (omega (arith, weight-cons (c ∷ []) (split s), weight-split s))))

-- Squashing makes no text longer.
pub char_count-squash_le : (s : String) → char_count (squash s) ≤ char_count s
unfolding squash
char_count-squash_le s = omega (arith, char_count-join_words (split s), weight-split s)

pub char_count-first_chars_le : (n : ℕ) (s : String) → char_count (first_chars n s) ≤ n
unfolding first_chars
char_count-first_chars_le zero s = omega arith
char_count-first_chars_le (suc n) [] = omega arith
char_count-first_chars_le (suc n) (c ∷ s) = omega (arith, char_count-first_chars_le n s)

pub first_chars-short : (n : ℕ) (s : String) → char_count s ≤ n → first_chars n s ≡ s
unfolding first_chars
first_chars-short zero [] h = refl
first_chars-short zero (c ∷ s) h = absurd (omega arith)
first_chars-short (suc n) [] h = refl
first_chars-short (suc n) (c ∷ s) h = rw (first_chars-short n s (omega arith)) refl
