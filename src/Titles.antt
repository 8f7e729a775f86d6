-- ===== src/Titles.antt =====
-- The titles that the creator has given to clips: `creator-overrides.json`, and what is shown
-- (pipeline/clipgauge_pipeline/creator_state.py).
pub mod Stored
pub mod Shown
use clipgauge.Common.{
  ℕ, suc, String, Bool, true, false, ◌&&◌, ◌||◌, not, Option, none, some, List, [], ◌∷◌, ltb,
  if◌then◌else◌, Result, ok, err, ◌>>=◌,
}
use Prim.Native.String.{◌++◌}
use clipgauge.Json.{Value, Fields, get, put, without, as_object, is_num}
use clipgauge.Text.{is_blank, squash, strip, first_chars, char_count}
use clipgauge.Collections.{Printing, contains, text_or, truthy_or_false}
use clipgauge.Collections.Service.{File}

pub data TitleError : Type 0 where
  malformed unsupported bad_entry bad_title unknown_clip blank long : TitleError

abbrev pub override_title_limit : ℕ
override_title_limit = 120

abbrev pub override_schema_version : ℕ
override_schema_version = 1

-- `{"title": …, "updated_at": …}`
abbrev pub entry : String → String → Value
entry title updated_at = Value.obj (
    Fields.field "title" (Value.str title)
      (Fields.field "updated_at" (Value.str updated_at) Fields.end))

abbrev pub overrides : String → Fields → Value
overrides job clips = Value.obj (
    Fields.field "schema_version" (Value.num override_schema_version)
      (Fields.field "job_id" (Value.str job) (Fields.field "clips" (Value.obj clips) Fields.end)))

-- `_normalize_title`
unfoldable pub normalize_override : String → Result TitleError String
unfolding squash
normalize_override title =
    let normalized = squash title in
    if is_blank normalized
    then err blank
    else if ltb override_title_limit (char_count normalized)
    then err long
    else ok normalized

-- The file, beside the entries that it then holds.
pub record Kept : Type 0 where
  pub file : File
  pub clips : Fields

abbrev pub keep : String → Fields → Kept
keep job clips = record { file = File.holds (overrides job clips); clips = clips }

module _ (py : Printing) where
  abbrev pub load_entry : Value → Result TitleError Value
  load_entry (Value.obj fs) =
      let title = squash (text_or py "" (get fs "title")) in
      if is_blank title || ltb override_title_limit (char_count title)
      then err bad_title
      else ok (entry title (text_or py "" (get fs "updated_at")))
  load_entry _ = err bad_entry

  -- The loop over the clips, whose keys are different.
  unfoldable pub load_entries : Fields → Result TitleError Fields
  unfolding squash get
  load_entries Fields.end = ok Fields.end
  load_entries (Fields.field k v fs) =
      load_entry v >>= λ e. load_entries fs >>= λ rest. ok (Fields.field k e rest)

  abbrev pub load_clips : Option Fields → Result TitleError Fields
  load_clips none = err malformed
  load_clips (some clips) = load_entries clips

  abbrev pub load_object : Option Fields → Result TitleError Fields
  load_object none = err unsupported
  load_object (some fs) =
      if is_num (get fs "schema_version") override_schema_version
      then load_clips (as_object (get fs "clips"))
      else err unsupported

  -- `load_title_overrides`, of which only the clips are used
  unfoldable pub load_title_overrides : File → Result TitleError Fields
  unfolding load_entries
  load_title_overrides File.absent = ok Fields.end
  load_title_overrides File.garbled = err malformed
  load_title_overrides (File.holds v) = load_object (as_object (some v))

  -- `valid` are the identifiers of the job's clips.
  unfoldable pub set_title_override :
      String → List String → File → String → String → String → Result TitleError Kept
  unfolding load_title_overrides normalize_override strip put
  set_title_override job valid file clip_id title now =
      let identifier = strip clip_id in
      if not (contains valid identifier)
      then err unknown_clip
      else normalize_override title >>= λ normalized. load_title_overrides file >>= λ clips.
          ok (keep job (put clips identifier (entry normalized now)))

  unfoldable pub reset_title_override :
      String → List String → File → String → Result TitleError Kept
  unfolding load_title_overrides strip without
  reset_title_override job valid file clip_id =
      let identifier = strip clip_id in
      if not (contains valid identifier)
      then err unknown_clip
      else load_title_overrides file >>= λ clips. ok (keep job (without clips identifier))

-- What names a clip that has no name: `str` of a number, `f"{float(v):.3f}"`, and SHA-256.
pub record Naming : Type 0 where
  pub decimal : ℕ → String
  pub fixed3 : Option Value → String
  pub sha256 : String → String

module _ (py : Printing) (naming : Naming) where
  -- `stable_clip_id` of enrich/stage.py
  unfoldable pub stable_clip_id : Fields → ℕ → String
  unfolding get first_chars
  stable_clip_id clip index =
      "clip-"
      ++ first_chars 12 (
          naming.sha256 (
            naming.decimal index
            ++ ":"
            ++ naming.fixed3 (get clip "start")
            ++ ":"
            ++ naming.fixed3 (get clip "end")))

  unfoldable pub clip_id_for : Fields → ℕ → String
  unfolding stable_clip_id strip get
  clip_id_for clip index =
      let existing = strip (text_or py "" (get clip "clip_id")) in
      if is_blank existing then stable_clip_id clip index else existing

  -- `_valid_ids` of collections/service.py and `_valid_clip_ids`, which makes a set of it
  unfoldable pub valid_ids : ℕ → List Fields → List String
  unfolding clip_id_for
  valid_ids i [] = []
  valid_ids i (c ∷ cs) = clip_id_for c i ∷ valid_ids (suc i) cs

  abbrev pub show_title : String → Fields → Option Value → Fields
  show_title identifier clip (some (Value.obj e)) =
      if truthy_or_false py (get e "title")
      then put
          (put (put clip "clip_id" (Value.str identifier)) "title"
            (Value.str (text_or py "" (get e "title"))))
          "title_source" (Value.str "user")
      else clip
  show_title identifier clip _ = clip

  -- `apply_title_overrides`, from index `i` on, for entries that are a `dict`
  unfoldable pub apply_from : ℕ → Fields → List Fields → List Fields
  unfolding clip_id_for put get
  apply_from i entries [] = []
  apply_from i entries (c ∷ cs) =
      let identifier = clip_id_for c i in
      show_title identifier c (get entries identifier) ∷ apply_from (suc i) entries cs
