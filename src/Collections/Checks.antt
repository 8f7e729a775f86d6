-- ===== src/Collections/Checks.antt =====
-- What the checks of collections/model.py and collections/service.py let through.
use clipgauge.Common.{
  ◌≤◌, String, ◌≡◌, refl, Bool, true, false, ◌&&◌, ◌||◌, not, Option, none, some, List, arith, ltb,
  if_ind, length, Result, ok, err, map, All, Holds, Holds-bind,
}
use clipgauge.Json.{Value, Fields, Items, get, as_object, is_num}
use clipgauge.Text.{is_blank, squash, strip, char_count, starts_word}
use clipgauge.Text.Words.{char_count-first_chars_le}
use clipgauge.Text.Starts.{squash-starts_word, starts_word-first_chars}
use clipgauge.Collections.{
  Printing, Refusal, Collection, title_limit, summary_limit, are_unique, all_in, check_clips,
  validate_collection, py_strs, text_or, validated, validate_ids,
}
use clipgauge.Collections.Service.{
  File, normalize_title, requested_clips, validate_items, cons_ok, load, load_rows, load_fields,
  inner, collections_schema_version,
}
use clipgauge.Collections.Stored.{IsValid}

-- Different clips of the job.
abbrev pub AreClips : List String → List String → Type 0
AreClips valid ids = (are_unique ids ≡ true) × (all_in valid ids ≡ true)

not-false : (b : Bool) → not b ≡ false → b ≡ true
not-false b h = ground arith

pub check_clips-Holds :
    (two : Bool) (valid ids : List String)
    → Holds (λ out. (out ≡ ids) × AreClips valid out) (check_clips two valid ids)
unfolding check_clips
check_clips-Holds two valid ids =
    if_ind (Holds (λ out. (out ≡ ids) × AreClips valid out)) (two && ltb (length ids) 2) (λ _. tt)
      (λ _.
        if_ind (Holds (λ out. (out ≡ ids) × AreClips valid out)) (not (are_unique ids)) (λ _. tt)
          (λ u.
            if_ind (Holds (λ out. (out ≡ ids) × AreClips valid out)) (not (all_in valid ids))
              (λ _. tt)
              (λ k. (refl, (not-false (are_unique ids) u, not-false (all_in valid ids) k)))))

pub requested_clips-Holds :
    (valid ids : List String)
    → Holds (λ out. (out ≡ map strip ids) × AreClips valid out) (requested_clips valid ids)
unfolding requested_clips
requested_clips-Holds valid ids = check_clips-Holds true valid (map strip ids)

-- A title that is accepted.
abbrev pub IsTitle : String → Type 0
IsTitle t = (starts_word t ≡ true) × (char_count t ≤ title_limit)

pub normalize_title-Holds :
    (title : String) → Holds (λ t. (t ≡ squash title) × IsTitle t) (normalize_title title)
unfolding normalize_title
normalize_title-Holds title =
    if_ind (Holds (λ t. (t ≡ squash title) × IsTitle t)) (is_blank (squash title)) (λ _. tt)
      (λ b.
        if_ind (Holds (λ t. (t ≡ squash title) × IsTitle t))
          (ltb title_limit (char_count (squash title))) (λ _. tt)
          (λ l. (refl, (squash-starts_word title b, ground arith))))

or-false : (a b : Bool) → (a || b) ≡ false → (a ≡ false) × (b ≡ false)
or-false a b h = (ground arith, ground arith)

module _ (py : Printing) (valid : List String) where
  validate_ids-Holds :
      (fs : Fields) (id title : String) (clips : Option Value)
      → is_blank id ≡ false
      → starts_word title ≡ true
      → Holds (IsValid valid) (validate_ids py valid false fs id title clips)
  unfolding validate_collection
  validate_ids-Holds fs id title (some (Value.arr items)) n t =
      Holds-bind (λ out. (out ≡ py_strs py items) × AreClips valid out) (IsValid valid)
        (check_clips false valid (py_strs py items)) (λ ids. ok (validated py fs id title ids))
        (check_clips-Holds false valid (py_strs py items))
        (λ out k. record {
          named = n;
          titled = starts_word-first_chars 119 title t;
          short = char_count-first_chars_le title_limit title;
          brief =
              char_count-first_chars_le summary_limit (squash (text_or py "" (get fs "summary")));
          unique = k.1.0;
          known = k.1.1;
        })
  validate_ids-Holds fs id title (some (Value.obj o)) n t = tt
  validate_ids-Holds fs id title (some (Value.str s)) n t = tt
  validate_ids-Holds fs id title (some (Value.num m)) n t = tt
  validate_ids-Holds fs id title (some (Value.number l)) n t = tt
  validate_ids-Holds fs id title (some (Value.bool b)) n t = tt
  validate_ids-Holds fs id title (some Value.null) n t = tt
  validate_ids-Holds fs id title none n t = tt

  validate_collection-Holds :
      (v : Value) → Holds (IsValid valid) (validate_collection py valid false v)
  unfolding validate_collection
  validate_collection-Holds (Value.obj fs) =
      let id = text_or py "" (get fs "id") in
      let title = squash (text_or py "" (get fs "title")) in
      if_ind (Holds (IsValid valid)) (is_blank id || is_blank title) (λ _. tt)
        (λ e.
          let both = or-false (is_blank id) (is_blank title) e in
          validate_ids-Holds fs id title (get fs "clip_ids") both.0
            (squash-starts_word (text_or py "" (get fs "title")) both.1))
  validate_collection-Holds (Value.arr o) = tt
  validate_collection-Holds (Value.str s) = tt
  validate_collection-Holds (Value.num m) = tt
  validate_collection-Holds (Value.number l) = tt
  validate_collection-Holds (Value.bool b) = tt
  validate_collection-Holds Value.null = tt

  module _ (job : String) where
    pub cons_ok-Holds :
        (c : Result Refusal Collection) (rest : Result Refusal (List Collection))
        → Holds (IsValid valid) c
        → Holds (All (IsValid valid)) rest
        → Holds (All (IsValid valid)) (cons_ok c rest)
    cons_ok-Holds (ok c) (ok cs) h k = (h, k)
    cons_ok-Holds (ok c) (err e) h k = tt
    cons_ok-Holds (err e) rest h k = tt

    validate_items-Holds :
        (vs : Items) → Holds (All (IsValid valid)) (validate_items py job valid vs)
    validate_items-Holds Items.nil = tt
    validate_items-Holds (Items.cons v vs) =
        cons_ok-Holds (validate_collection py valid false v) (validate_items py job valid vs)
          (validate_collection-Holds v) (validate_items-Holds vs)

    load_rows-Holds : (v : Option Value) → Holds (All (IsValid valid)) (load_rows py job valid v)
    load_rows-Holds (some (Value.arr items)) = validate_items-Holds items
    load_rows-Holds (some (Value.obj o)) = tt
    load_rows-Holds (some (Value.str s)) = tt
    load_rows-Holds (some (Value.num m)) = tt
    load_rows-Holds (some (Value.number l)) = tt
    load_rows-Holds (some (Value.bool b)) = tt
    load_rows-Holds (some Value.null) = tt
    load_rows-Holds none = tt

    load_fields-Holds :
        (fs : Option Fields) → Holds (All (IsValid valid)) (load_fields py job valid fs)
    load_fields-Holds none = tt
    load_fields-Holds (some fs) =
        let body = inner fs (as_object (get fs "data")) in
        if_ind (Holds (All (IsValid valid)))
          (is_num (get body "schema_version") collections_schema_version)
          (λ _. load_rows-Holds (get body "collections")) (λ _. tt)

    -- Whatever the file holds, the collections that are loaded from it are valid.
    pub load-Holds : (file : File) → Holds (All (IsValid valid)) (load py job valid file)
    unfolding load
    load-Holds File.absent = tt
    load-Holds File.garbled = tt
    load-Holds (File.holds v) = load_fields-Holds (as_object (some v))
