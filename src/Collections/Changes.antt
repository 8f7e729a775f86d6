-- ===== src/Collections/Changes.antt =====
-- The operations on collections: what each of them stores
-- (pipeline/clipgauge_pipeline/collections/service.py).
use clipgauge.Common.{
  ◌≤◌, String, ◌≡◌, refl, sym, true, false, not, List, [], ◌∷◌, ◌++◌, arith, ◌==◌, ◌=s=◌, if_ind,
  length, Result, ok, err, ◌>>=◌, map, All, All-append, Holds, Holds-bind, inl, inr, Bool-cases,
  subst,
}
use clipgauge.Text.{is_blank, squash, strip}
use clipgauge.Text.Words.{char_count-first_chars_le}
use clipgauge.Collections.{Printing, Refusal, Collection, summary_limit}
use clipgauge.Collections.Service.{
  File, Saved, normalize_title, requested_clips, load, save, is_listed, drop_row, new_item,
  is_source, create_collection, delete_collection,
}
use clipgauge.Collections.Stored.{IsValid, IsStored, save-IsStored, tidy}
use clipgauge.Collections.Checks.{
  AreClips, IsTitle, requested_clips-Holds, normalize_title-Holds, load-Holds,
}

-- What was loaded before the change.
abbrev pub IsLoaded : Printing → String → List String → File → List Collection → Type 0
IsLoaded py job valid file rows = load py job valid file ≡ ok rows

-- The collection that was asked for.
pub record IsRequested (id title : String) (ids : List String) (source : String) (c : Collection)
    : Type 0 where
  pub same_id : c.id ≡ id
  pub same_title : c.title ≡ squash title
  pub same_clips : c.clip_ids ≡ map strip ids
  pub same_source : c.source ≡ source
  pub by_hand : c.user_edited ≡ (source =s= "manual")

module _ (py : Printing) (job : String) (valid : List String) where
  pub save-Holds :
      (P : Saved → Type 0) (rows : List Collection)
      → All (IsValid valid) rows
      → ((saved : Saved) → IsStored py job valid saved rows → P saved)
      → Holds P (save py job valid rows)
  save-Holds P rows v k =
      let s = save-IsStored py job valid rows v in subst (Holds P) (sym s.1) (k s.0 s.2)

  -- A change stores the collections it was given, with the file's one after the new one.
  abbrev pub IsCreated : File → String → String → List String → String → Saved → Type 0
  IsCreated file id title ids source saved =
      (rows : List Collection) × (c : Collection) × IsLoaded py job valid file rows
      × IsRequested id title ids source c
      × IsStored py job valid saved (rows ++ c ∷ [])

  -- `load` with the equation that says what it gave.
  pub load-cases :
      (file : File) (P : Saved → Type 0) (f : List Collection → Result Refusal Saved)
      → ((rows : List Collection)
          → IsLoaded py job valid file rows
          → All (IsValid valid) rows
          → Holds P (f rows))
      → Holds P (load py job valid file >>= f)
  load-cases file P f k = go (load py job valid file) refl (load-Holds py valid job file)
    where
      go :
          (r : Result Refusal (List Collection))
          → load py job valid file ≡ r
          → Holds (All (IsValid valid)) r
          → Holds P (r >>= f)
      go (ok rows) e v = k rows e v
      go (err x) e v = tt

  new_item-IsValid :
      (id name : String) (clips : List String) (source summary : String)
      → is_blank id ≡ false
      → IsTitle name
      → AreClips valid clips
      → IsValid valid (new_item id name clips source summary)
  new_item-IsValid id name clips source summary fresh t k = record {
    named = fresh;
    titled = t.0;
    short = t.1;
    brief = char_count-first_chars_le summary_limit (squash summary);
    unique = k.0;
    known = k.1;
  }

  -- For a fresh identifier that is not empty: if the collection is created, the file holds what it
  -- held, and behind it the collection that was asked for, all of them valid and
  -- tidied.
  pub create_collection-IsCreated :
      (file : File) (id title : String) (ids : List String) (source summary : String)
      → is_blank id ≡ false
      → Holds
          (IsCreated file id title ids source)
          (create_collection py job valid file id title ids source summary)
  unfolding create_collection
  create_collection-IsCreated file id title ids source summary fresh =
      Holds-bind (λ out. (out ≡ map strip ids) × AreClips valid out)
        (IsCreated file id title ids source) (requested_clips valid ids) _
        (requested_clips-Holds valid ids)
        (λ clips k.
          Holds-bind (λ t. (t ≡ squash title) × IsTitle t) (IsCreated file id title ids source)
            (normalize_title title) _ (normalize_title-Holds title)
            (λ name t.
              if_ind (Holds (IsCreated file id title ids source)) (not (is_source source)) (λ _. tt)
                (λ _. load-cases file (IsCreated file id title ids source) _ (λ rows e v.
                  save-Holds (IsCreated file id title ids source)
                    (rows ++ new_item id name clips source summary ∷ [])
                    (All-append (IsValid valid) rows (new_item id name clips source summary ∷ []) v
                      (new_item-IsValid id name clips source summary fresh t.1 k.1, tt))
                    (λ saved s. (
                      rows,
                      new_item id name clips source summary,
                      e,
                      asked name clips t.0 k.0,
                      s,
                    ))))))
    where
      asked :
          (name : String) (clips : List String)
          → name ≡ squash title
          → clips ≡ map strip ids
          → IsRequested id title ids source (new_item id name clips source summary)
      asked name clips t k = record {
        same_id = refl;
        same_title = t;
        same_clips = k;
        same_source = refl;
        by_hand = refl;
      }

  drop_row-All :
      (id : String) (rows : List Collection)
      → All (IsValid valid) rows
      → All (IsValid valid) (drop_row id rows)
  drop_row-All id [] v = tt
  drop_row-All id (c ∷ cs) v =
      if_ind (All (IsValid valid)) (c.id =s= id) (λ _. drop_row-All id cs v.1)
        (λ _. (v.0, drop_row-All id cs v.1))

  length-drop_row_le :
      (id : String) (rows : List Collection) → length (drop_row id rows) ≤ length rows
  length-drop_row_le id [] = omega arith
  length-drop_row_le id (c ∷ cs) = ground (arith, length-drop_row_le id cs)

  is_listed-drop_row :
      (id : String) (rows : List Collection)
      → (length (drop_row id rows) == length rows) ≡ false
      → is_listed id rows ≡ true
  is_listed-drop_row id [] h = absurd (ground arith)
  is_listed-drop_row id (c ∷ cs) h =
      ground (arith, length-drop_row_le id cs, is_listed-drop_row id cs)

  tidied_away :
      (id : String) (rows : List Collection) → is_listed id (map tidy (drop_row id rows)) ≡ false
  tidied_away id [] = refl
  tidied_away id (c ∷ cs) = elim (Bool-cases (c.id =s= id)) [
    | inl e ↦ rw e (tidied_away id cs)
    | inr e ↦ rw e (rw e (tidied_away id cs))
  ]

  pub loaded-IsValid :
      (file : File) (rows : List Collection)
      → IsLoaded py job valid file rows
      → All (IsValid valid) rows
  loaded-IsValid file rows e = subst (Holds (All (IsValid valid))) e (load-Holds py valid job file)

  drop_row-shorter :
      (id : String) (rows : List Collection)
      → is_listed id rows ≡ true
      → (length (drop_row id rows) == length rows) ≡ false
  drop_row-shorter id [] h = absurd (ground arith)
  drop_row-shorter id (c ∷ cs) h = ground (arith, length-drop_row_le id cs, drop_row-shorter id cs)

  -- The collection was there, all others are kept, tidied, and it is gone.
  abbrev pub IsDeleted : File → String → Saved → Type 0
  IsDeleted file id saved =
      (rows : List Collection) × IsLoaded py job valid file rows
      × (is_listed id rows ≡ true)
      × (is_listed id saved.rows ≡ false)
      × IsStored py job valid saved (drop_row id rows)

  -- If a collection is deleted, it was there, it is gone, and the file holds all others,
  -- tidied.
  pub delete_collection-IsDeleted :
      (file : File) (id : String)
      → Holds (IsDeleted file id) (delete_collection py job valid file id)
  unfolding delete_collection
  delete_collection-IsDeleted file id = load-cases file (IsDeleted file id) _ (λ rows e v.
      if_ind (Holds (IsDeleted file id)) (length (drop_row id rows) == length rows) (λ _. tt)
        (λ n.
          save-Holds (IsDeleted file id) (drop_row id rows) (drop_row-All id rows v) (λ saved s.
            (rows, e, is_listed-drop_row id rows n, rw s.same (tidied_away id rows), s))))

  -- A collection that is in the file can be deleted.
  pub delete_collection-ok :
      (file : File) (id : String) (rows : List Collection)
      → IsLoaded py job valid file rows
      → is_listed id rows ≡ true
      → (saved : Saved) × (delete_collection py job valid file id ≡ ok saved)
        × IsStored py job valid saved (drop_row id rows)
  unfolding delete_collection
  delete_collection-ok file id rows e listed =
      let v = loaded-IsValid file rows e in
      let s = save-IsStored py job valid (drop_row id rows) (drop_row-All id rows v) in
      (s.0, rw (e, drop_row-shorter id rows listed) s.1, s.2)

  -- Where the stored file is missing or loads, clips and a title that are accepted, that is different
  -- clips of the job, at least two, and a title within the limit, with a source that is known and an
  -- identifier that is not empty, make a collection, behind what was stored, and the file gives it all
  -- again, tidied.
  pub create_collection-ok :
      (file : File) (id title : String) (ids : List String) (source summary : String)
      (rows : List Collection) (clips : List String) (name : String)
      → is_blank id ≡ false
      → IsLoaded py job valid file rows
      → requested_clips valid ids ≡ ok clips
      → normalize_title title ≡ ok name
      → is_source source ≡ true
      → (saved : Saved) × (create_collection py job valid file id title ids source summary
          ≡ ok saved)
        × IsStored py job valid saved (rows ++ new_item id name clips source summary ∷ [])
  unfolding create_collection
  create_collection-ok file id title ids source summary rows clips name fresh e c t known =
      let good =
        subst (Holds (λ out. (out ≡ map strip ids) × AreClips valid out)) c
          (requested_clips-Holds valid ids) in
      let titled =
        subst (Holds (λ n. (n ≡ squash title) × IsTitle n)) t (normalize_title-Holds title) in
      let item = new_item id name clips source summary in
      let s = save-IsStored py job valid (rows ++ item ∷ []) (
        All-append (IsValid valid) rows (item ∷ []) (loaded-IsValid file rows e)
          (new_item-IsValid id name clips source summary fresh titled.1 good.1, tt)) in
      (s.0, rw (c, t, known, e) s.1, s.2)
