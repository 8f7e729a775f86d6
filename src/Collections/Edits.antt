-- ===== src/Collections/Edits.antt =====
-- Changing a collection: its title, its clips, and the path of its video
-- (pipeline/clipgauge_pipeline/collections/service.py).
use clipgauge.Common.{
  String, ◌≡◌, refl, ap, ◌∙◌, subst, Bool, true, false, Option, none, some, List, [], ◌∷◌, ◌=s=◌,
  if◌then◌else◌, if_ind, Result, ok, err, map, All, Holds, Holds-bind,
}
use clipgauge.Text.{squash, strip}
use clipgauge.Collections.{Printing, Refusal, Collection}
use clipgauge.Collections.Service.{
  File, Saved, normalize_title, requested_clips, set_path, is_listed, set_collection_render_path,
  change_row, change_rows, new_title, new_clips, update_collection, cons_ok, asks_nothing,
}
use clipgauge.Collections.Stored.{IsValid, IsStored}
use clipgauge.Collections.Checks.{AreClips, IsTitle, requested_clips-Holds, normalize_title-Holds}
use clipgauge.Collections.Changes.{IsLoaded, save-Holds, load-cases}

abbrev pub title_after : Option String → String → String
title_after none old = old
title_after (some t) old = squash t

abbrev pub clips_after : Option (List String) → List String → List String
clips_after none old = old
clips_after (some ids) old = map strip ids

-- The collection as it was asked to be, and the creator's from now on.
abbrev pub edited : Option String → Option (List String) → Collection → Collection
edited title ids c = record c {
  title = title_after title c.title;
  clip_ids = clips_after ids c.clip_ids;
  source = "manual";
  user_edited = true;
}

abbrev pub edit_row : String → Option String → Option (List String) → Collection → Collection
edit_row id title ids c = if c.id =s= id then edited title ids c else c

module _ (py : Printing) (job : String) (valid : List String) where
  -- A change of one row that is valid.
  abbrev pub IsNow : Collection → Collection → Type 0
  IsNow wanted c = (c ≡ wanted) × IsValid valid c

  new_title-Holds :
      (title : Option String) (c : Collection)
      → IsValid valid c
      → Holds
          (IsNow (record c { title = title_after title c.title }))
          (new_title py job valid title c)
  new_title-Holds none c v = (refl, v)
  new_title-Holds (some t) c v =
      Holds-bind (λ n. (n ≡ squash t) × IsTitle n) (IsNow (record c { title = squash t }))
        (normalize_title t) (λ name. ok (record c { title = name })) (normalize_title-Holds t)
        (λ n k. (
          ap (λ n. record c { title = n }) k.0,
          record {
            named = v.named;
            titled = k.1.0;
            short = k.1.1;
            brief = v.brief;
            unique = v.unique;
            known = v.known;
          },
        ))

  new_clips-Holds :
      (ids : Option (List String)) (c : Collection)
      → IsValid valid c
      → Holds
          (IsNow (record c { clip_ids = clips_after ids c.clip_ids }))
          (new_clips py job valid ids c)
  new_clips-Holds none c v = (refl, v)
  new_clips-Holds (some ids) c v =
      Holds-bind (λ out. (out ≡ map strip ids) × AreClips valid out)
        (IsNow (record c { clip_ids = map strip ids })) (requested_clips valid ids)
        (λ clips. ok (record c { clip_ids = clips })) (requested_clips-Holds valid ids)
        (λ out k. (
          ap (λ out. record c { clip_ids = out }) k.0,
          record {
            named = v.named;
            titled = v.titled;
            short = v.short;
            brief = v.brief;
            unique = k.1.0;
            known = k.1.1;
          },
        ))

  change_row-Holds :
      (title : Option String) (ids : Option (List String)) (c : Collection)
      → IsValid valid c
      → Holds (IsNow (edited title ids c)) (change_row py job valid title ids c)
  change_row-Holds title ids c v =
      Holds-bind (IsNow (record c { title = title_after title c.title }))
        (IsNow (edited title ids c)) (new_title py job valid title c) _ (new_title-Holds title c v)
        (λ titled t.
          Holds-bind (IsNow (record titled { clip_ids = clips_after ids titled.clip_ids }))
            (IsNow (edited title ids c)) (new_clips py job valid ids titled)
            (λ changed. ok (record changed { user_edited = true; source = "manual" }))
            (new_clips-Holds ids titled t.1)
            (λ d k. (
              ap {A = Collection} (λ d. record d { user_edited = true; source = "manual" }) k.0
                  ∙ ap {A = Collection}
                      (λ t. record t {
                        clip_ids = clips_after ids t.clip_ids;
                        user_edited = true;
                        source = "manual";
                      })
                      t.0,
              record {
                named = k.1.named;
                titled = k.1.titled;
                short = k.1.short;
                brief = k.1.brief;
                unique = k.1.unique;
                known = k.1.known;
              },
            )))

  abbrev pub AreNow : List Collection → List Collection → Type 0
  AreNow wanted cs = (cs ≡ wanted) × All (IsValid valid) cs

  cons_ok-AreNow :
      (wanted : Collection) (rest : List Collection) (c : Result Refusal Collection)
      (cs : Result Refusal (List Collection))
      → Holds (IsNow wanted) c
      → Holds (AreNow rest) cs
      → Holds (AreNow (wanted ∷ rest)) (cons_ok c cs)
  cons_ok-AreNow wanted rest (ok c) (ok cs) h k = (rw (h.0, k.0) refl, (h.1, k.1))
  cons_ok-AreNow wanted rest (ok c) (err e) h k = tt
  cons_ok-AreNow wanted rest (err e) cs h k = tt

  pub change_rows-Holds :
      (id : String) (title : Option String) (ids : Option (List String)) (rows : List Collection)
      → All (IsValid valid) rows
      → Holds
          (AreNow (map (edit_row id title ids) rows))
          (change_rows py job valid id title ids rows)
  change_rows-Holds id title ids [] v = (refl, tt)
  change_rows-Holds id title ids (c ∷ cs) v =
      cons_ok-AreNow (edit_row id title ids c) (map (edit_row id title ids) cs)
        (if c.id =s= id then change_row py job valid title ids c else ok c)
        (change_rows py job valid id title ids cs)
        (if_cases (c.id =s= id) (change_row-Holds title ids c v.0) (refl, v.0))
        (change_rows-Holds id title ids cs v.1)
    where
      if_cases :
          (b : Bool)
          → Holds (IsNow (edited title ids c)) (change_row py job valid title ids c)
          → IsNow c c
          → Holds
              (IsNow (if b then edited title ids c else c))
              (if b then change_row py job valid title ids c else ok c)
      if_cases true h k = h
      if_cases false h k = k

  -- The file holds the collections that were there, changed where the identifier is the given one.
  abbrev pub IsChanged : (Collection → Collection) → File → String → Saved → Type 0
  IsChanged f file id saved =
      (rows : List Collection) × IsLoaded py job valid file rows
      × (is_listed id rows ≡ true)
      × IsStored py job valid saved (map f rows)

  -- If an update is stored, the collection was there, it has the squashed title and the stripped
  -- clips that were given and is marked as edited by hand, and all others are kept; all are tidied.
  pub update_collection-IsChanged :
      (file : File) (id : String) (title : Option String) (ids : Option (List String))
      → Holds
          (IsChanged (edit_row id title ids) file id)
          (update_collection py job valid file id title ids)
  unfolding update_collection
  update_collection-IsChanged file id title ids =
      load-cases py job valid file (IsChanged (edit_row id title ids) file id) _ (λ rows e v.
        if_ind (Holds (IsChanged (edit_row id title ids) file id)) (asks_nothing title ids)
          (λ _. tt)
          (λ _.
            Holds-bind (AreNow (map (edit_row id title ids) rows))
              (IsChanged (edit_row id title ids) file id)
              (change_rows py job valid id title ids rows) _ (change_rows-Holds id title ids rows v)
              (λ changed k.
                if_ind (Holds (IsChanged (edit_row id title ids) file id)) (is_listed id rows)
                  (λ there.
                    save-Holds py job valid (IsChanged (edit_row id title ids) file id) changed k.1
                      (λ saved s. (rows, e, there, subst (IsStored py job valid saved) k.0 s)))
                  (λ _. tt))))

  pub set_path-All :
      (id path : String) (rows : List Collection)
      → All (IsValid valid) rows
      → All (IsValid valid) (map (set_path id path) rows)
  set_path-All id path [] v = tt
  set_path-All id path (c ∷ cs) v = (
    if_ind (IsValid valid) (c.id =s= id)
        (λ _. record {
          named = v.0.named;
          titled = v.0.titled;
          short = v.0.short;
          brief = v.0.brief;
          unique = v.0.unique;
          known = v.0.known;
        })
        (λ _. v.0),
    set_path-All id path cs v.1,
  )

  -- If a path is stored, the collection was there and has it, and all others are kept.
  pub set_collection_render_path-IsChanged :
      (file : File) (id path : String)
      → Holds
          (IsChanged (set_path id path) file id)
          (set_collection_render_path py job valid file id path)
  unfolding set_collection_render_path
  set_collection_render_path-IsChanged file id path =
      load-cases py job valid file (IsChanged (set_path id path) file id) _ (λ rows e v.
        if_ind (Holds (IsChanged (set_path id path) file id)) (is_listed id rows)
          (λ there.
            save-Holds py job valid (IsChanged (set_path id path) file id)
              (map (set_path id path) rows) (set_path-All id path rows v)
              (λ saved s. (rows, e, there, s)))
          (λ _. tt))
