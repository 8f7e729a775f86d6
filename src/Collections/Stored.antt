-- ===== src/Collections/Stored.antt =====
-- What is saved is what is loaded again (collections/model.py and collections/service.py).
use clipgauge.Common.{
  ◌≤◌, String, ◌≡◌, refl, ap, ◌∙◌, true, false, List, [], ◌∷◌, arith, ok, map, All,
}
use clipgauge.Json.{get}
use clipgauge.Text.{is_blank, squash, char_count, starts_word}
use clipgauge.Text.Words.{squash-squash, char_count-squash_le, first_chars-short}
use clipgauge.Text.Starts.{starts_word→is_blank, starts_word-squash}
use clipgauge.Collections.{
  Printing, Collection, title_limit, summary_limit, are_unique, all_in, check_clips,
  validate_collection, py_strs,
}
use clipgauge.Collections.Service.{
  File, Saved, id_items, to_value, row_items, document, validate_items, load, save,
}

-- What `validate_collection` establishes.
pub record IsValid (valid : List String) (c : Collection) : Type 0 where
  pub named : is_blank c.id ≡ false
  pub titled : starts_word c.title ≡ true
  pub short : char_count c.title ≤ title_limit
  pub brief : char_count c.summary ≤ summary_limit
  pub unique : are_unique c.clip_ids ≡ true
  pub known : all_in valid c.clip_ids ≡ true

-- The blanks that cutting a text to its limit may leave at the end are gone once it is saved.
abbrev pub tidy : Collection → Collection
tidy c = record c { title = squash c.title; summary = squash c.summary }

unfolded_ids : (py : Printing) (ids : List String) → py_strs py (id_items ids) ≡ ids
unfolded_ids py [] = refl
unfolded_ids py (s ∷ ss) = rw (unfolded_ids py ss) refl

check_clips-ok :
    (valid ids : List String)
    → are_unique ids ≡ true
    → all_in valid ids ≡ true
    → check_clips false valid ids ≡ ok ids
unfolding check_clips
check_clips-ok valid ids u k = rw (u, k) refl

module _ (py : Printing) (job : String) (valid : List String) where
  validate-to_value :
      (c : Collection)
      → IsValid valid c
      → validate_collection py valid false (to_value c) ≡ ok (tidy c)
  unfolding validate_collection get
  validate-to_value c v =
      let st = starts_word→is_blank (squash c.title) (starts_word-squash c.title v.titled) in
      let le = char_count-squash_le c.title in
      let ls = char_count-squash_le c.summary in
      rw
        (
          v.named,
          st,
          unfolded_ids py c.clip_ids,
          check_clips-ok valid c.clip_ids v.unique v.known,
          first_chars-short title_limit (squash c.title) (omega (arith, v.short)),
          first_chars-short summary_limit (squash c.summary) (omega (arith, v.brief)),
        )
        refl

  validate-row_items :
      (rows : List Collection)
      → All (IsValid valid) rows
      → validate_items py job valid (row_items rows) ≡ ok (map tidy rows)
  validate-row_items [] v = refl
  validate-row_items (c ∷ cs) v = rw (validate-to_value c v.0, validate-row_items cs v.1) refl

  IsValid-tidy : (c : Collection) → IsValid valid c → IsValid valid (tidy c)
  IsValid-tidy c v = record {
    named = v.named;
    titled = starts_word-squash c.title v.titled;
    short = omega (arith, char_count-squash_le c.title, v.short);
    brief = omega (arith, char_count-squash_le c.summary, v.brief);
    unique = v.unique;
    known = v.known;
  }

  tidy-tidy : (c : Collection) → tidy (tidy c) ≡ tidy c
  tidy-tidy c = rw (squash-squash c.title, squash-squash c.summary) refl

  IsValid-map-tidy :
      (rows : List Collection) → All (IsValid valid) rows → All (IsValid valid) (map tidy rows)
  IsValid-map-tidy [] v = tt
  IsValid-map-tidy (c ∷ cs) v = (IsValid-tidy c v.0, IsValid-map-tidy cs v.1)

  map-tidy-tidy : (rows : List Collection) → map tidy (map tidy rows) ≡ map tidy rows
  map-tidy-tidy [] = refl
  map-tidy-tidy (c ∷ cs) = rw (tidy-tidy c, map-tidy-tidy cs) refl

  -- What is saved: the collections, tidied, all of them valid, and the file gives them again.
  pub record IsStored (saved : Saved) (rows : List Collection) : Type 0 where
    pub same : saved.rows ≡ map tidy rows
    pub again : load py job valid saved.file ≡ ok saved.rows
    pub valid_rows : All (IsValid valid) saved.rows

  stored : List Collection → Saved
  stored rows = record { file = File.holds (document job (map tidy rows)); rows = map tidy rows }

  pub save-IsStored :
      (rows : List Collection)
      → All (IsValid valid) rows
      → (saved : Saved) × (save py job valid rows ≡ ok saved) × IsStored saved rows
  unfolding save load stored get
  save-IsStored rows v = (
    stored rows,
    rw (validate-row_items rows v) refl,
    record {
      same = refl;
      again =
          validate-row_items (map tidy rows) (IsValid-map-tidy rows v) ∙ ap ok (map-tidy-tidy rows);
      valid_rows = IsValid-map-tidy rows v;
    },
  )
