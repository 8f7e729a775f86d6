-- ===== src/Collections/Accepted.antt =====
-- The edits of collections that are accepted (pipeline/clipgauge_pipeline/collections/service.py).
use clipgauge.Common.{
  String, ◌≡◌, refl, subst, Bool, true, false, Option, none, some, List, [], ◌∷◌, ◌=s=◌,
  if◌then◌else◌, ok, map, Holds,
}
use clipgauge.Collections.{Printing, Collection}
use clipgauge.Collections.Service.{
  File, Saved, normalize_title, requested_clips, set_path, is_listed, set_collection_render_path,
  change_row, change_rows, new_title, new_clips, update_collection, asks_nothing,
}
use clipgauge.Collections.Stored.{IsStored, save-IsStored}
use clipgauge.Collections.Changes.{IsLoaded, loaded-IsValid}
use clipgauge.Collections.Edits.{edit_row, AreNow, change_rows-Holds, set_path-All}

-- No title is given, or one that is not blank and not too long.
abbrev pub CanTitle : Option String → Type 0
CanTitle none = Unit
CanTitle (some t) = (name : String) × (normalize_title t ≡ ok name)

-- No clips are given, or at least two different ones of the job.
abbrev pub CanClip : List String → Option (List String) → Type 0
CanClip valid none = Unit
CanClip valid (some ids) = (clips : List String) × (requested_clips valid ids ≡ ok clips)

module _ (py : Printing) (job : String) (valid : List String) where
  new_title-ok :
      (title : Option String) (c : Collection)
      → CanTitle title
      → (d : Collection) × (new_title py job valid title c ≡ ok d)
  new_title-ok none c h = (c, refl)
  new_title-ok (some t) c h = (record c { title = h.0 }, rw h.1 refl)

  new_clips-ok :
      (ids : Option (List String)) (c : Collection)
      → CanClip valid ids
      → (d : Collection) × (new_clips py job valid ids c ≡ ok d)
  new_clips-ok none c h = (c, refl)
  new_clips-ok (some ids) c h = (record c { clip_ids = h.0 }, rw h.1 refl)

  change_row-ok :
      (title : Option String) (ids : Option (List String)) (c : Collection)
      → CanTitle title
      → CanClip valid ids
      → (d : Collection) × (change_row py job valid title ids c ≡ ok d)
  change_row-ok title ids c t k =
      let a = new_title-ok title c t in
      let b = new_clips-ok ids a.0 k in
      (record b.0 { user_edited = true; source = "manual" }, rw (a.1, b.1) refl)

  change_rows-ok :
      (id : String) (title : Option String) (ids : Option (List String)) (rows : List Collection)
      → CanTitle title
      → CanClip valid ids
      → (changed : List Collection) × (change_rows py job valid id title ids rows ≡ ok changed)
  change_rows-ok id title ids [] t k = ([], refl)
  change_rows-ok id title ids (c ∷ cs) t k =
      let d = one (c.id =s= id) (change_row-ok title ids c t k) in
      let ds = change_rows-ok id title ids cs t k in (d.0 ∷ ds.0, rw (d.1, ds.1) refl)
    where
      one :
          (b : Bool)
          → ((d : Collection) × (change_row py job valid title ids c ≡ ok d))
          → (d : Collection) × ((if b then change_row py job valid title ids c else ok c) ≡ ok d)
      one true h = h
      one false h = (c, refl)

  -- An edit of a collection that is there, with a title and clips that can be taken, is stored,
  -- beside all other collections, tidied.
  pub update_collection-ok :
      (file : File) (id : String) (title : Option String) (ids : Option (List String))
      (rows : List Collection)
      → IsLoaded py job valid file rows
      → is_listed id rows ≡ true
      → asks_nothing title ids ≡ false
      → CanTitle title
      → CanClip valid ids
      → (saved : Saved) × (update_collection py job valid file id title ids ≡ ok saved)
        × IsStored py job valid saved (map (edit_row id title ids) rows)
  unfolding update_collection
  update_collection-ok file id title ids rows e there asks t k =
      let v = loaded-IsValid py job valid file rows e in
      let c = change_rows-ok id title ids rows t k in
      let now =
        subst (Holds (AreNow py job valid (map (edit_row id title ids) rows))) c.1
          (change_rows-Holds py job valid id title ids rows v) in
      let s = save-IsStored py job valid c.0 now.1 in
      (s.0, rw (e, asks, c.1, there) s.1, subst (IsStored py job valid s.0) now.0 s.2)

  -- A path is stored for a collection that is there, beside all other collections, tidied.
  pub set_collection_render_path-ok :
      (file : File) (id path : String) (rows : List Collection)
      → IsLoaded py job valid file rows
      → is_listed id rows ≡ true
      → (saved : Saved) × (set_collection_render_path py job valid file id path ≡ ok saved)
        × IsStored py job valid saved (map (set_path id path) rows)
  unfolding set_collection_render_path
  set_collection_render_path-ok file id path rows e there =
      let v = loaded-IsValid py job valid file rows e in
      let s =
        save-IsStored py job valid (map (set_path id path) rows)
          (set_path-All py job valid id path rows v) in
      (s.0, rw (e, there) s.1, s.2)
