-- ===== src/Collections/Service.antt =====
-- pipeline/clipgauge_pipeline/collections/service.py: the collections of a job, kept in one JSON
-- file, and the operations on them.
use clipgauge.Common.{
  ℕ, String, Bool, true, false, ◌||◌, not, Option, none, some, List, [], ◌∷◌, ◌++◌, ltb, ◌==◌,
  ◌=s=◌, if◌then◌else◌, length, Result, ok, err, ◌>>=◌, map,
}
use clipgauge.Json.{Value, Fields, Items, get, as_object, is_num}
use clipgauge.Text.{is_blank, squash, strip, first_chars, char_count}
use clipgauge.Collections.{
  Printing, Refusal, Collection, title_limit, summary_limit, check_clips, validate_collection,
}

-- The file `collections.json`: absent, without JSON, or with a value.
pub data File : Type 0 where
  absent garbled : File
  holds : Value → File

abbrev pub collections_schema_version : ℕ
collections_schema_version = 1

abbrev pub id_items : List String → Items
id_items [] = Items.nil
id_items (s ∷ ss) = Items.cons (Value.str s) (id_items ss)

-- A collection as a `dict`, in the order of `validate_collection`.
abbrev pub to_value : Collection → Value
to_value c = Value.obj (
    Fields.field "id" (Value.str c.id) (
      Fields.field "title" (Value.str c.title) (
        Fields.field "clip_ids" (Value.arr (id_items c.clip_ids)) (
          Fields.field "source" (Value.str c.source) (
            Fields.field "user_edited" (Value.bool c.user_edited) (
              Fields.field "summary" (Value.str c.summary)
                (Fields.field "render_path" c.render_path Fields.end)))))))

abbrev pub row_items : List Collection → Items
row_items [] = Items.nil
row_items (c ∷ cs) = Items.cons (to_value c) (row_items cs)

abbrev pub document : String → List Collection → Value
document job rows = Value.obj (
    Fields.field "schema_version" (Value.num collections_schema_version) (
      Fields.field "job_id" (Value.str job)
        (Fields.field "collections" (Value.arr (row_items rows)) Fields.end)))

-- `_normalize_title`
unfoldable pub normalize_title : String → Result Refusal String
unfolding squash
normalize_title title =
    let normalized = squash title in
    if is_blank normalized
    then err Refusal.blank_title
    else if ltb title_limit (char_count normalized)
    then err Refusal.long_title
    else ok normalized

-- `_validate_requested_clip_ids`
unfoldable pub requested_clips : List String → List String → Result Refusal (List String)
unfolding check_clips
requested_clips valid ids = check_clips true valid (map strip ids)

abbrev pub cons_ok :
    Result Refusal Collection → Result Refusal (List Collection) → Result Refusal (List Collection)
cons_ok c rest = c >>= λ a. rest >>= λ as'. ok (a ∷ as')

-- The old layout has the collections one level down, under `data`.
abbrev has_rows : Fields → Bool
has_rows fs = elim (get fs "collections") [ none ↦ false | some v ↦ true ]

abbrev pub inner : Fields → Option Fields → Fields
inner fs none = fs
inner fs (some d) = if has_rows d then d else fs

abbrev pub set_path : String → String → Collection → Collection
set_path id path c = if c.id =s= id then record c { render_path = Value.str path } else c

abbrev pub is_listed : String → List Collection → Bool
is_listed id [] = false
is_listed id (c ∷ cs) = c.id =s= id || is_listed id cs

abbrev pub drop_row : String → List Collection → List Collection
drop_row id [] = []
drop_row id (c ∷ cs) = let rest = drop_row id cs in if c.id =s= id then rest else c ∷ rest

-- The collections that a change has stored, beside the file.
pub record Saved : Type 0 where
  pub file : File
  pub rows : List Collection

-- The item has no path yet, for which `validate_collection` has null.
abbrev pub new_item : String → String → List String → String → String → Collection
new_item id title clips source summary = record {
  id = id;
  title = title;
  clip_ids = clips;
  source = source;
  user_edited = source =s= "manual";
  summary = first_chars summary_limit (squash summary);
  render_path = Value.null;
}

abbrev pub if_listed : Bool → Result Refusal Saved → Result Refusal Saved
if_listed found saved = if found then saved else err Refusal.not_found

abbrev pub is_source : String → Bool
is_source s = s =s= "manual" || s =s= "ai" || s =s= "deterministic"

abbrev pub asks_nothing : Option String → Option (List String) → Bool
asks_nothing none none = true
asks_nothing _ _ = false

-- `valid` are the identifiers of the job's clips, of which `_valid_ids` makes one for each.
module _ (py : Printing) (job : String) (valid : List String) where
  abbrev pub validate_items : Items → Result Refusal (List Collection)
  validate_items Items.nil = ok []
  validate_items (Items.cons v vs) =
      cons_ok (validate_collection py valid false v) (validate_items vs)

  abbrev pub load_rows : Option Value → Result Refusal (List Collection)
  load_rows (some (Value.arr items)) = validate_items items
  load_rows _ = err Refusal.malformed

  abbrev pub load_fields : Option Fields → Result Refusal (List Collection)
  load_fields none = err Refusal.unsupported
  load_fields (some fs) =
      let body = inner fs (as_object (get fs "data")) in
      if is_num (get body "schema_version") collections_schema_version
      then load_rows (get body "collections")
      else err Refusal.unsupported

  -- `_load`, of which only the rows are used
  unfoldable pub load : File → Result Refusal (List Collection)
  unfolding validate_collection
  load File.absent = ok []
  load File.garbled = err Refusal.unreadable
  load (File.holds v) = load_fields (as_object (some v))

  -- `_save`: what is returned is what the file then holds.
  unfoldable pub save : List Collection → Result Refusal Saved
  unfolding validate_collection
  save rows = validate_items (row_items rows) >>= λ normalized.
      ok (record { file = File.holds (document job normalized); rows = normalized })

  unfoldable pub list_collections : File → Result Refusal (List Collection)
  unfolding load
  list_collections file = load file

  unfoldable pub set_collection_render_path : File → String → String → Result Refusal Saved
  unfolding load save
  set_collection_render_path file id path =
      load file >>= λ rows. if_listed (is_listed id rows) (save (map (set_path id path) rows))

  -- `id` is the fresh identifier.
  unfoldable pub create_collection :
      File → String → String → List String → String → String → Result Refusal Saved
  unfolding load save requested_clips normalize_title
  create_collection file id title ids source summary = requested_clips valid ids >>= λ clips.
      normalize_title title >>= λ name.
      if not (is_source source)
      then err Refusal.bad_source
      else load file >>= λ rows. save (rows ++ new_item id name clips source summary ∷ [])

  abbrev pub new_title : Option String → Collection → Result Refusal Collection
  new_title none c = ok c
  new_title (some t) c = normalize_title t >>= λ name. ok (record c { title = name })

  abbrev pub new_clips : Option (List String) → Collection → Result Refusal Collection
  new_clips none c = ok c
  new_clips (some ids) c = requested_clips valid ids >>= λ clips. ok (record c { clip_ids = clips })

  abbrev pub change_row :
      Option String → Option (List String) → Collection → Result Refusal Collection
  change_row title ids c = new_title title c >>= λ titled. new_clips ids titled >>= λ changed.
      ok (record changed { user_edited = true; source = "manual" })

  abbrev pub change_rows :
      String
      → Option String
      → Option (List String)
      → List Collection
      → Result Refusal (List Collection)
  change_rows id title ids [] = ok []
  change_rows id title ids (c ∷ cs) =
      cons_ok (if c.id =s= id then change_row title ids c else ok c) (change_rows id title ids cs)

  unfoldable pub update_collection :
      File → String → Option String → Option (List String) → Result Refusal Saved
  unfolding load save requested_clips normalize_title
  update_collection file id title ids = load file >>= λ rows.
      if asks_nothing title ids
      then err Refusal.nothing_to_update
      else change_rows id title ids rows >>= λ changed. if_listed (is_listed id rows) (save changed)

  unfoldable pub reorder_collection : File → String → List String → Result Refusal Saved
  unfolding update_collection
  reorder_collection file id ids = update_collection file id none (some ids)

  unfoldable pub delete_collection : File → String → Result Refusal Saved
  unfolding load save
  delete_collection file id = load file >>= λ rows.
      let kept = drop_row id rows in
      if length kept == length rows then err Refusal.not_found else save kept
