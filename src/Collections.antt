-- ===== src/Collections.antt =====
-- pipeline/clipgauge_pipeline/collections/model.py: what a collection is, and its validation.
pub mod Service
pub mod Smart
pub mod Stored
pub mod Checks
pub mod Changes
pub mod Edits
pub mod Apart
pub mod Accepted
pub mod Grouping
pub mod Regenerate
use clipgauge.Common.{
  ℕ, suc, String, Bool, true, false, ◌&&◌, ◌||◌, not, Option, none, some, List, [], ◌∷◌, ◌++◌, ltb,
  ◌=s=◌, if◌then◌else◌, length, Result, ok, err, ◌>>=◌,
}
use clipgauge.Json.{Value, Fields, Items, get}
use clipgauge.Text.{is_blank, squash, first_chars}

-- Python's texts for values that are no texts: `str(v)`, and whether a literal is the number 0.
pub record Printing : Type 0 where
  pub shown : Value → String
  pub is_zero : String → Bool

pub data Refusal : Type 0 where
  not_an_object incomplete too_few not_unique unknown_clip blank_title long_title : Refusal
  bad_source nothing_to_update not_found unreadable unsupported malformed : Refusal

pub record Collection : Type 0 where
  pub id : String
  pub title : String
  pub clip_ids : List String
  pub source : String
  pub user_edited : Bool
  pub summary : String
  pub render_path : Value

abbrev pub title_limit : ℕ
title_limit = 120

abbrev pub summary_limit : ℕ
summary_limit = 240

abbrev pub contains : List String → String → Bool
contains [] s = false
contains (t ∷ ts) s = t =s= s || contains ts s

-- `len(set(xs)) == len(xs)`
abbrev pub are_unique : List String → Bool
are_unique [] = true
are_unique (t ∷ ts) = not (contains ts t) && are_unique ts

abbrev pub all_in : List String → List String → Bool
all_in valid [] = true
all_in valid (t ∷ ts) = contains valid t && all_in valid ts

-- The three tests on the identifiers of a collection's clips, in their order.
unfoldable pub check_clips : Bool → List String → List String → Result Refusal (List String)
check_clips require_two valid ids =
    if require_two && ltb (length ids) 2
    then err too_few
    else if not (are_unique ids)
    then err not_unique
    else if not (all_in valid ids)
    then err unknown_clip
    else ok ids

module _ (py : Printing) where
  -- `str(v)`
  abbrev pub py_str : Value → String
  py_str (Value.str s) = s
  py_str v = py.shown v

  -- `str(value.get(key, default))`
  abbrev pub text_or : String → Option Value → String
  text_or default none = default
  text_or default (some v) = py_str v

  -- `bool(v)`
  abbrev pub truthy : Value → Bool
  truthy (Value.obj Fields.end) = false
  truthy (Value.obj (Fields.field k v fs)) = true
  truthy (Value.arr Items.nil) = false
  truthy (Value.arr (Items.cons v vs)) = true
  truthy (Value.str s) = not (is_blank s)
  truthy (Value.num n) = ltb 0 n
  truthy (Value.number literal) = not (py.is_zero literal)
  truthy (Value.bool b) = b
  truthy Value.null = false

  abbrev pub truthy_or_false : Option Value → Bool
  truthy_or_false none = false
  truthy_or_false (some v) = truthy v

  abbrev or_null : Option Value → Value
  or_null none = Value.null
  or_null (some v) = v

  abbrev pub py_strs : Items → List String
  py_strs Items.nil = []
  py_strs (Items.cons v vs) = py_str v ∷ py_strs vs

  abbrev pub validated : Fields → String → String → List String → Collection
  validated fs id title ids = record {
    id = id;
    title = first_chars title_limit title;
    clip_ids = ids;
    source = text_or "manual" (get fs "source");
    user_edited = truthy_or_false (get fs "user_edited");
    summary = first_chars summary_limit (squash (text_or "" (get fs "summary")));
    render_path = or_null (get fs "render_path");
  }

  abbrev pub validate_ids :
      List String → Bool → Fields → String → String → Option Value → Result Refusal Collection
  validate_ids valid require_two fs id title (some (Value.arr items)) =
      check_clips require_two valid (py_strs items) >>= λ ids. ok (validated fs id title ids)
  validate_ids valid require_two fs id title _ = err incomplete

  abbrev pub validate_fields : List String → Bool → Fields → Result Refusal Collection
  validate_fields valid require_two fs =
      let id = text_or "" (get fs "id") in
      let title = squash (text_or "" (get fs "title")) in
      if is_blank id || is_blank title
      then err incomplete
      else validate_ids valid require_two fs id title (get fs "clip_ids")

  unfoldable pub validate_collection : List String → Bool → Value → Result Refusal Collection
  unfolding check_clips squash first_chars get
  validate_collection valid require_two (Value.obj fs) = validate_fields valid require_two fs
  validate_collection valid require_two _ = err not_an_object
