-- ===== src/Text.antt =====
-- The operations of Python's `str` that the program uses, on texts as lists of characters.
pub mod Words
pub mod Lower
pub mod Find
pub mod Starts
use Prim.Native.Char.{Char, code}
use Prim.Native.String.{String, [], ◌∷◌, ◌++◌}
use clipgauge.Common.{
  ℕ, zero, suc, Bool, true, false, ◌&&◌, ◌||◌, not, List, [], ◌∷◌, leb, ◌==◌, if◌then◌else◌,
}

abbrev between : ℕ → ℕ → ℕ → Bool
between a b n = leb a n && leb n b

-- `str.isspace` on one character.
unfoldable pub is_space : Char → Bool
is_space c =
    let n = code c in
    between 9 13 n
    || between 28 32 n
    || n == 133
    || n == 160
    || n == 5760
    || between 8192 8202 n
    || n == 8232
    || n == 8233
    || n == 8239
    || n == 8287
    || n == 12288

abbrev pub is_blank : String → Bool
is_blank [] = true
is_blank (c ∷ s) = false

-- `s.lstrip()`
unfoldable pub lstrip : String → String
unfolding is_space
lstrip [] = []
lstrip (c ∷ s) = let rest = lstrip s in if is_space c then rest else c ∷ s

-- `s.rstrip()`
unfoldable pub rstrip : String → String
unfolding is_space
rstrip [] = []
rstrip (c ∷ s) = let rest = rstrip s in if is_space c && is_blank rest then [] else c ∷ rest

-- `s.strip()`
unfoldable pub strip : String → String
unfolding lstrip rstrip
strip s = rstrip (lstrip s)

-- `s[:n]`
unfoldable pub first_chars : ℕ → String → String
first_chars zero s = []
first_chars (suc n) [] = []
first_chars (suc n) (c ∷ s) = c ∷ first_chars n s

-- `len(s)`
abbrev pub char_count : String → ℕ
char_count [] = 0
char_count (c ∷ s) = suc (char_count s)

-- `s.endswith((…))`, for suffixes of one character.
unfoldable pub last_char_is : (Char → Bool) → String → Bool
last_char_is p [] = false
last_char_is p (c ∷ s) = let rest = last_char_is p s in if is_blank s then p c else rest

abbrev onto_head : Char → List String → List String
onto_head c [] = (c ∷ []) ∷ []
onto_head c (w ∷ ws) = (c ∷ w) ∷ ws

abbrev pub starts_word : String → Bool
starts_word [] = false
starts_word (c ∷ s) = not (is_space c)

-- `s.split()`
unfoldable pub split : String → List String
unfolding is_space
split [] = []
split (c ∷ s) =
    let rest = split s in
    if is_space c then rest else if starts_word s then onto_head c rest else (c ∷ []) ∷ rest

-- `" ".join(words)`
unfoldable pub join_words : List String → String
join_words [] = []
join_words (w ∷ []) = w
join_words (w ∷ v ∷ vs) = w ++ " " ++ join_words (v ∷ vs)

-- `" ".join(s.split())`
unfoldable pub squash : String → String
unfolding split join_words
squash s = join_words (split s)
