-- ===== src/Captions.antt =====
-- `chunk_words` of pipeline/clipgauge_pipeline/captions/ass.py: the words that are shown together.
-- Times are whole milliseconds.
pub mod Chunks
use Prim.Native.Char.{Char, code}
use clipgauge.Common.{
  ℕ, ◌+◌, String, Bool, true, false, ◌||◌, List, [], ◌∷◌, ◌++◌, ltb, leb, length, ◌==◌,
  if◌then◌else◌,
}
use clipgauge.Text.{last_char_is}

pub record CaptionWord : Type 0 where
  pub text : String
  pub start_ms : ℕ
  pub end_ms : ℕ

abbrev pub chunk_max_words : ℕ
chunk_max_words = 4

abbrev pub chunk_pause_break_ms : ℕ
chunk_pause_break_ms = 600

-- `_PUNCT_BREAK`: one of . ! ? , ; : at the end.
abbrev pub is_break : Char → Bool
is_break c = let n = code c in n == 46 || n == 33 || n == 63 || n == 44 || n == 59 || n == 58

abbrev pub ends_clause : CaptionWord → Bool
ends_clause w = last_char_is is_break w.text

abbrev pub pause_behind : CaptionWord → List CaptionWord → Bool
pause_behind w [] = false
pause_behind w (v ∷ vs) = ltb (w.end_ms + chunk_pause_break_ms) v.start_ms

abbrev pub should_break : List CaptionWord → CaptionWord → List CaptionWord → Bool
should_break current w later =
    leb chunk_max_words (length current) || ends_clause w || pause_behind w later

abbrev pub close_chunk : List CaptionWord → List (List CaptionWord)
close_chunk [] = []
close_chunk (w ∷ ws) = (w ∷ ws) ∷ []

unfoldable pub chunk_from : List CaptionWord → List CaptionWord → List (List CaptionWord)
unfolding last_char_is
chunk_from current [] = close_chunk current
chunk_from current (w ∷ ws) =
    let closed = chunk_from [] ws in
    let going_on = chunk_from (current ++ w ∷ []) ws in
    if should_break (current ++ w ∷ []) w ws then (current ++ w ∷ []) ∷ closed else going_on

unfoldable pub chunk_words : List CaptionWord → List (List CaptionWord)
unfolding chunk_from
chunk_words words = chunk_from [] words
