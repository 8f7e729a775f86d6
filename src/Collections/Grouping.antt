-- ===== src/Collections/Grouping.antt =====
-- What `regenerate_smart_collections` stores
-- (pipeline/clipgauge_pipeline/collections/service.py).
use clipgauge.Common.{
  ℕ, suc, String, ◌≡◌, refl, sym, ◌∙◌, Bool, true, false, ◌||◌, Option, none, some, List, [], ◌∷◌,
  ◌++◌, arith, if_ind, ok, map, All, All-map, Holds, Holds-bind, Holds-map, sort_by, eq_refl,
}
use clipgauge.Json.{Value, Fields, Items, get}
use clipgauge.Text.{is_blank, squash, strip}
use clipgauge.Text.Words.{char_count-first_chars_le}
use clipgauge.Collections.{Printing, Collection, summary_limit, all_in, text_or, py_strs}
use clipgauge.Collections.Service.{normalize_title, requested_clips}
use clipgauge.Collections.Smart.{
  order_from, intersects, edited_rows, suggested_clips, suggestion, suggestions_from,
}
use clipgauge.Collections.Stored.{IsValid}
use clipgauge.Collections.Checks.{AreClips, IsTitle, requested_clips-Holds, normalize_title-Holds}
use clipgauge.Collections.Apart.{
  intersects-append, are_unique-sort_by, all_in-sort_by, intersects-sort_by, sort_by-intersects,
}

-- No clip stands in two of the collections.
abbrev pub AreApart : List Collection → Type 0
AreApart [] = Unit
AreApart (c ∷ cs) = All (λ d. intersects c.clip_ids d.clip_ids ≡ false) cs × AreApart cs

all_in-more :
    (v : String) (valid ids : List String) → all_in valid ids ≡ true → all_in (v ∷ valid) ids ≡ true
all_in-more v valid [] h = refl
all_in-more v valid (s ∷ ss) h = ground (arith, all_in-more v valid ss)

pub all_in_self : (valid : List String) → all_in valid valid ≡ true
all_in_self [] = refl
all_in_self (v ∷ vs) = rw (eq_refl v) (all_in-more v vs vs (all_in_self vs))

pub edited_rows-All :
    (valid : List String) (rows : List Collection)
    → All (IsValid valid) rows
    → All (IsValid valid) (edited_rows rows)
unfolding edited_rows
edited_rows-All valid [] v = tt
edited_rows-All valid (c ∷ cs) v =
    if_ind (All (IsValid valid)) c.user_edited (λ _. (v.0, edited_rows-All valid cs v.1))
      (λ _. edited_rows-All valid cs v.1)

module _ (py : Printing) (valid : List String) where
  -- Suggestions that are valid, apart from what was seen, and from one another.
  pub record AreGood (seen : List String) (rows : List Collection) : Type 0 where
    pub good : All (IsValid valid) rows
    pub unseen : All (λ c. intersects seen c.clip_ids ≡ false) rows
    pub apart : AreApart rows

  suggested_clips-Holds : (v : Option Value) → Holds (AreClips valid) (suggested_clips py valid v)
  suggested_clips-Holds (some (Value.arr items)) =
      Holds-map (λ out. (out ≡ map strip (py_strs py items)) × AreClips valid out) (AreClips valid)
        (requested_clips valid (py_strs py items)) (λ out h. h.1)
        (requested_clips-Holds valid (py_strs py items))
  suggested_clips-Holds (some (Value.obj o)) = tt
  suggested_clips-Holds (some (Value.str s)) = tt
  suggested_clips-Holds (some (Value.num m)) = tt
  suggested_clips-Holds (some (Value.number l)) = tt
  suggested_clips-Holds (some (Value.bool b)) = tt
  suggested_clips-Holds (some Value.null) = tt
  suggested_clips-Holds none = tt

  suggestion-IsValid :
      (id title : String) (fs : Fields) (clips : List String)
      → is_blank id ≡ false
      → IsTitle title
      → AreClips valid clips
      → IsValid valid (suggestion py valid id title fs clips)
  suggestion-IsValid id title fs clips n t k = record {
    named = n;
    titled = t.0;
    short = t.1;
    brief = char_count-first_chars_le summary_limit (squash (text_or py "" (get fs "summary")));
    unique = are_unique-sort_by (order_from 0 valid) clips ∙ k.0;
    known = all_in-sort_by (order_from 0 valid) clips valid ∙ k.1;
  }

  or-false : (a b : Bool) → (a || b) ≡ false → (a ≡ false) × (b ≡ false)
  or-false a b h = (ground arith, ground arith)

  -- One more suggestion in front of good ones.
  add_good :
      (seen clips : List String) (id title : String) (fs : Fields) (rest : List Collection)
      → IsValid valid (suggestion py valid id title fs clips)
      → intersects seen clips ≡ false
      → AreGood (seen ++ clips) rest
      → AreGood seen (suggestion py valid id title fs clips ∷ rest)
  add_good seen clips id title fs rest v new g = record {
    good = (v, g.good);
    unseen = (
      intersects-sort_by (order_from 0 valid) clips seen ∙ new,
      All-map (λ c. intersects (seen ++ clips) c.clip_ids ≡ false)
          (λ c. intersects seen c.clip_ids ≡ false) rest (λ c h. (both c h).0) g.unseen,
    );
    apart = (
      All-map (λ c. intersects (seen ++ clips) c.clip_ids ≡ false)
          (λ c. intersects (sort_by (order_from 0 valid) clips) c.clip_ids ≡ false) rest
          (λ c h. sort_by-intersects (order_from 0 valid) clips c.clip_ids ∙ (both c h).1) g.unseen,
      g.apart,
    );
  }
    where
      both :
          (c : Collection)
          → intersects (seen ++ clips) c.clip_ids ≡ false
          → (intersects seen c.clip_ids ≡ false) × (intersects clips c.clip_ids ≡ false)
      both c h =
          or-false (intersects seen c.clip_ids) (intersects clips c.clip_ids)
            (sym (intersects-append seen clips c.clip_ids) ∙ h)

  pub suggestions_from-Holds :
      (ids : ℕ → String) (k : ℕ) (seen : List String) (items : Items)
      → ((j : ℕ) → is_blank (ids j) ≡ false)
      → Holds (AreGood seen) (suggestions_from py valid ids k seen items)
  unfolding suggestions_from
  suggestions_from-Holds ids k seen Items.nil n = record { good = tt; unseen = tt; apart = tt }
  suggestions_from-Holds ids k seen (Items.cons (Value.obj fs) vs) n =
      Holds-bind (λ t. (t ≡ squash (text_or py "" (get fs "title"))) × IsTitle t) (AreGood seen)
        (normalize_title (text_or py "" (get fs "title"))) _
        (normalize_title-Holds (text_or py "" (get fs "title")))
        (λ title t.
          Holds-bind (AreClips valid) (AreGood seen) (suggested_clips py valid (get fs "clip_ids"))
            _ (suggested_clips-Holds (get fs "clip_ids"))
            (λ clips c.
              if_ind (Holds (AreGood seen)) (intersects seen clips) (λ _. tt)
                (λ new.
                  Holds-bind (AreGood (seen ++ clips)) (AreGood seen)
                    (suggestions_from py valid ids (suc k) (seen ++ clips) vs)
                    (λ rest. ok (suggestion py valid (ids k) title fs clips ∷ rest))
                    (suggestions_from-Holds ids (suc k) (seen ++ clips) vs n)
                    (λ rest g.
                      add_good seen clips (ids k) title fs rest
                        (suggestion-IsValid (ids k) title fs clips (n k) t.1 c) new g))))
  suggestions_from-Holds ids k seen (Items.cons (Value.arr o) vs) n = tt
  suggestions_from-Holds ids k seen (Items.cons (Value.str s) vs) n = tt
  suggestions_from-Holds ids k seen (Items.cons (Value.num m) vs) n = tt
  suggestions_from-Holds ids k seen (Items.cons (Value.number l) vs) n = tt
  suggestions_from-Holds ids k seen (Items.cons (Value.bool b) vs) n = tt
  suggestions_from-Holds ids k seen (Items.cons Value.null vs) n = tt
