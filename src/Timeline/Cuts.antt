-- ===== src/Timeline/Cuts.antt =====
-- `detect_dead_space`: the silences of a clip, and which of them are cut.
pub mod Silence
use Prim.Native.Char.{code}
use clipgauge.Text.{rstrip, last_char_is}
use clipgauge.Common.{
  ℕ, ◌+◌, ◌-◌, String, Bool, true, false, ◌&&◌, ◌||◌, Option, none, some, List, [], ◌∷◌, ◌++◌, ltb,
  leb, ◌==◌, ◌=s=◌, if◌then◌else◌,
}

abbrev pub min_cut_gap : ℕ
min_cut_gap = 500

abbrev pub breath_pad : ℕ
breath_pad = 150

abbrev pub event_protect : ℕ
event_protect = 2000

abbrev pub natural_pause_max : ℕ
natural_pause_max = 1100

pub record Word : Type 0 where
  pub word : String
  pub start : ℕ
  pub end : ℕ

pub record Event : Type 0 where
  pub kind : String
  pub start : ℕ
  pub end : ℕ

pub data Reason : Type 0 where
  comedic_timing natural_pacing : Reason
  silence : ℕ → Reason

pub record Cut : Type 0 where
  pub start : ℕ
  pub end : ℕ
  pub kept : Bool
  pub reason : Reason

-- A silence: from, to, and the word before it.
pub record Gap : Type 0 where
  pub start : ℕ
  pub end : ℕ
  pub before : Option Word

abbrev pub is_reaction : String → Bool
is_reaction k = k =s= "laugh" || k =s= "gasp" || k =s= "scream" || k =s= "applause" || k =s= "cheer"

-- `a < pe and b > ps`, with `ps = e.start - 2` moved to the other side
abbrev pub near : ℕ → ℕ → Event → Bool
near a b e = ltb a (e.end + event_protect) && ltb e.start (b + event_protect)

unfoldable pub protected_by_event : List Event → ℕ → ℕ → Bool
protected_by_event [] a b = false
protected_by_event (e ∷ es) a b = (is_reaction e.kind && near a b e) || protected_by_event es a b

unfoldable pub words_inside : ℕ → ℕ → List Word → List Word
words_inside clip_start clip_end [] = []
words_inside clip_start clip_end (w ∷ ws) =
    let rest = words_inside clip_start clip_end ws in
    if leb clip_start w.start && ltb w.start clip_end then w ∷ rest else rest

-- The silences behind a word: up to the next word, and from the last word to the end of the clip.
unfoldable pub gaps_after : Word → List Word → ℕ → List Gap
gaps_after w [] clip_end = record { start = w.end; end = clip_end; before = some w } ∷ []
gaps_after w (v ∷ vs) clip_end =
    record { start = w.end; end = v.start; before = some w } ∷ gaps_after v vs clip_end

unfoldable pub boundary_pairs : ℕ → ℕ → List Word → List Gap
unfolding gaps_after
boundary_pairs clip_start clip_end [] = []
boundary_pairs clip_start clip_end (w ∷ ws) =
    record { start = clip_start; end = w.start; before = none } ∷ gaps_after w ws clip_end

-- `word.rstrip().endswith((".", "!", "?"))`
unfoldable pub ends_sentence : String → Bool
unfolding rstrip last_char_is
ends_sentence s = last_char_is (λ c. code c == 46 || code c == 33 || code c == 63) (rstrip s)

module _ (events : List Event) where
  abbrev sentence_end : Option Word → Bool
  sentence_end none = false
  sentence_end (some w) = ends_sentence w.word

  -- The decision on one silence, if it is long enough to be shown. A reversed gap is no gap, so
  -- that the difference may stop at 0.
  unfoldable pub decide_gap : Gap → Option Cut
  unfolding protected_by_event ends_sentence
  decide_gap g =
      let gap = g.end - g.start in
      let cut_a = g.start + breath_pad in
      let cut_b = g.end - breath_pad in
      if ltb gap min_cut_gap
      then none
      else if protected_by_event events g.start g.end
      then some (record { start = g.start; end = g.end; kept = true; reason = comedic_timing })
      else if sentence_end g.before && leb gap natural_pause_max
      then some (record { start = g.start; end = g.end; kept = true; reason = natural_pacing })
      else if ltb (cut_b - cut_a) 200
      then none
      else some (record { start = cut_a; end = cut_b; kept = false; reason = silence gap })

  abbrev add_cut : Option Cut → List Cut → List Cut
  add_cut none cuts = cuts
  add_cut (some c) cuts = c ∷ cuts

  unfoldable pub cuts_of : List Gap → List Cut
  cuts_of [] = []
  cuts_of (g ∷ gs) = add_cut (decide_gap g) (cuts_of gs)

  unfoldable pub detect_dead_space : List Word → ℕ → ℕ → List Cut
  unfolding cuts_of boundary_pairs words_inside
  detect_dead_space words clip_start clip_end =
      cuts_of (boundary_pairs clip_start clip_end (words_inside clip_start clip_end words))
