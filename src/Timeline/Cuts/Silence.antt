-- ===== src/Timeline/Cuts/Silence.antt =====
-- What `detect_dead_space` cuts is silence, away from words and reactions
-- (pipeline/clipgauge_pipeline/edits/timeline.py).
use clipgauge.Common.{
  ℕ, ◌+◌, ◌-◌, ◌≤◌, ◌<◌, ◌≡◌, refl, true, false, ◌&&◌, Option, none, some, List, [], ◌∷◌, All,
  All-map, All-both, arith, inl, inr, ◌⊎◌, ◌↔◌, ltb, leb, if_ind,
}
use clipgauge.Timeline.Cuts.{
  Word, Event, Cut, Gap, is_reaction, protected_by_event, words_inside, gaps_after, boundary_pairs,
  decide_gap, add_cut, cuts_of, detect_dead_space, min_cut_gap, breath_pad, event_protect,
}

-- Each word ends before the later ones start.
abbrev pub AreSpoken : List Word → Type 0
AreSpoken [] = Unit
AreSpoken (w ∷ ws) = (w.start ≤ w.end) × All (λ v. w.end ≤ v.start) ws × AreSpoken ws

abbrev IsClear : Gap → Word → Type 0
IsClear g w = (w.end ≤ g.start) ⊎ (g.end ≤ w.start)

words_inside-All :
    (P : Word → Type 0) (a b : ℕ) (ws : List Word) → All P ws → All P (words_inside a b ws)
unfolding words_inside
words_inside-All P a b [] h = tt
words_inside-All P a b (w ∷ ws) h =
    if_ind (All P) (leb a w.start && ltb w.start b) (λ _. (h.0, words_inside-All P a b ws h.1))
      (λ _. words_inside-All P a b ws h.1)

words_inside-AreSpoken : (a b : ℕ) (ws : List Word) → AreSpoken ws → AreSpoken (words_inside a b ws)
unfolding words_inside
words_inside-AreSpoken a b [] h = tt
words_inside-AreSpoken a b (w ∷ ws) h =
    if_ind AreSpoken (leb a w.start && ltb w.start b)
      (λ _. (
        h.0,
        words_inside-All (λ v. w.end ≤ v.start) a b ws h.1,
        words_inside-AreSpoken a b ws h.2,
      ))
      (λ _. words_inside-AreSpoken a b ws h.2)

-- The silences behind a word start where a word has ended.
gaps_after-ge :
    (t : ℕ) (w : Word) (ws : List Word) (clip_end : ℕ)
    → t ≤ w.end
    → AreSpoken (w ∷ ws)
    → All (λ g. t ≤ g.start) (gaps_after w ws clip_end)
unfolding gaps_after
gaps_after-ge t w [] clip_end h s = (h, tt)
gaps_after-ge t w (v ∷ vs) clip_end h s =
    (h, gaps_after-ge t v vs clip_end (omega (arith, s.1.0, s.2.0)) s.2)

gaps_after-IsClear :
    (w : Word) (ws : List Word) (clip_end : ℕ)
    → AreSpoken (w ∷ ws)
    → All (λ g. All (IsClear g) (w ∷ ws)) (gaps_after w ws clip_end)
unfolding gaps_after
gaps_after-IsClear w [] clip_end s = ((inl (omega arith), tt), tt)
gaps_after-IsClear w (v ∷ vs) clip_end s = (
  (
    inl (omega arith),
    (
      inr (omega arith),
      All-map (λ u. v.end ≤ u.start) (λ u. (u.end ≤ w.end) ⊎ (v.start ≤ u.start)) vs
          (λ u h. inr (omega (arith, s.2.0))) s.2.1,
    ),
  ),
  All-map (λ g. (w.end ≤ g.start) × All (IsClear g) (v ∷ vs)) (λ g. All (IsClear g) (w ∷ v ∷ vs))
      (gaps_after v vs clip_end) (λ g h. (inl h.0, h.1))
      (All-both (λ g. w.end ≤ g.start) (λ g. All (IsClear g) (v ∷ vs)) (gaps_after v vs clip_end)
        (gaps_after-ge w.end v vs clip_end (omega (arith, s.1.0, s.2.0)) s.2)
        (gaps_after-IsClear v vs clip_end s.2)),
)

boundary_pairs-IsClear :
    (a b : ℕ) (ws : List Word)
    → AreSpoken ws
    → All (λ g. All (IsClear g) ws) (boundary_pairs a b ws)
unfolding boundary_pairs
boundary_pairs-IsClear a b [] s = tt
boundary_pairs-IsClear a b (w ∷ ws) s = (
  (
    inr (omega arith),
    All-map (λ v. w.end ≤ v.start) (λ v. (v.end ≤ a) ⊎ (w.start ≤ v.start)) ws
        (λ v h. inr (omega (arith, s.0))) s.1,
  ),
  gaps_after-IsClear w ws b s,
)

-- How a cut that is not kept comes from its silence.
record IsCutOf (events : List Event) (g : Gap) (c : Cut) : Type 0 where
  start : c.start ≡ g.start + breath_pad
  end : c.end + breath_pad ≡ g.end
  long : c.start + 200 ≤ c.end
  free : protected_by_event events g.start g.end ≡ false

-- The cut keeps its distance from the word.
abbrev pub Spares : Cut → Word → Type 0
Spares c w = (w.end + breath_pad ≤ c.start) ⊎ (c.end + breath_pad ≤ w.start)

-- The cut keeps its distance from the event, unless that is no reaction.
abbrev pub SparesEvent : Cut → Event → Type 0
SparesEvent c e =
    (is_reaction e.kind ≡ false)
    ⊎ ((e.end + event_protect + breath_pad ≤ c.start)
        ⊎ (c.end + breath_pad + event_protect ≤ e.start))

protected_by_event-SparesEvent :
    (events : List Event) (g : Gap) (c : Cut)
    → c.start ≡ g.start + breath_pad
    → c.end + breath_pad ≡ g.end
    → protected_by_event events g.start g.end ≡ false
    → All (SparesEvent c) events
unfolding protected_by_event
protected_by_event-SparesEvent [] g c s e h = tt
protected_by_event-SparesEvent (x ∷ es) g c s e h =
    (ground arith, protected_by_event-SparesEvent es g c s e (ground arith))

module _ (events : List Event) where
  decide_gap-IsCutOf :
      (g : Gap) (c : Cut) → decide_gap events g ≡ some c → (c.kept ≡ true) ⊎ IsCutOf events g c
  unfolding decide_gap
  decide_gap-IsCutOf g c h = ground arith

  -- A silence of half a second or more is always shown, whether it is kept or cut; the code's last
  -- test, for cuts that are too short, never holds.
  pub decide_gap-none : (g : Gap) → (decide_gap events g ≡ none) ↔ (g.end - g.start < min_cut_gap)
  unfolding decide_gap
  decide_gap-none g = (λ h. ground arith, λ h. ground arith)

  cuts_of-All :
      (P : Gap → Type 0) (Q : Cut → Type 0) (gs : List Gap)
      → ((g : Gap) (c : Cut) → P g → decide_gap events g ≡ some c → Q c)
      → All P gs
      → All Q (cuts_of events gs)
  unfolding cuts_of
  cuts_of-All P Q [] f h = tt
  cuts_of-All P Q (g ∷ gs) f h =
      add (decide_gap events g) (λ c e. f g c h.0 e) (cuts_of-All P Q gs f h.1)
    where
      add :
          (o : Option Cut)
          → ((c : Cut) → o ≡ some c → Q c)
          → All Q (cuts_of events gs)
          → All Q (add_cut events o (cuts_of events gs))
      add none k rest = rest
      add (some c) k rest = (k c refl, rest)

  -- Where the words of the clip follow one another, a range that is cut keeps at least 0.15 s from
  -- each of them and 2.15 s from each reaction.
  pub detect_dead_space-Spares :
      (words : List Word) (clip_start clip_end : ℕ)
      → AreSpoken words
      → All
          (λ c.
            (c.kept ≡ true)
            ⊎ (All (Spares c) (words_inside clip_start clip_end words)
                × All (SparesEvent c) events))
          (detect_dead_space events words clip_start clip_end)
  unfolding detect_dead_space
  detect_dead_space-Spares words clip_start clip_end spoken =
      let inside = words_inside clip_start clip_end words in
      cuts_of-All (λ g. All (IsClear g) inside) _ (boundary_pairs clip_start clip_end inside)
        (λ g c clear e. spare g c inside clear (decide_gap-IsCutOf g c e))
        (boundary_pairs-IsClear clip_start clip_end inside
          (words_inside-AreSpoken clip_start clip_end words spoken))
    where
      spare :
          (g : Gap) (c : Cut) (inside : List Word)
          → All (IsClear g) inside
          → (c.kept ≡ true) ⊎ IsCutOf events g c
          → (c.kept ≡ true) ⊎ (All (Spares c) inside × All (SparesEvent c) events)
      spare g c inside clear (inl kept) = inl kept
      spare g c inside clear (inr cut) = inr (
        All-map (IsClear g) (Spares c) inside (λ w h. ground (arith, cut.start, cut.end)) clear,
        protected_by_event-SparesEvent events g c cut.start cut.end cut.free,
      )
