-- ===== src/Collections/Smart.antt =====
-- `regenerate_smart_collections` of pipeline/clipgauge_pipeline/collections/service.py: the
-- collections that a provider suggests, or one of all clips.
use clipgauge.Common.{
  ℕ, suc, String, Bool, false, ◌&&◌, ◌||◌, not, Option, some, List, [], ◌∷◌, ◌++◌, ltb,
  if◌then◌else◌, length, Result, ok, err, ◌>>=◌, ◌=s=◌, sort_by,
}
use clipgauge.Json.{Value, Fields, Items, get}
use clipgauge.Text.{squash, first_chars}
use clipgauge.Collections.{Printing, Refusal, Collection, contains, summary_limit, text_or, py_strs}
use clipgauge.Collections.Service.{File, Saved, normalize_title, requested_clips, load, save}

-- What the provider does: there is none, it raises, or it replies.
pub data Provider : Type 0 where
  no_provider raises : Provider
  replies : Value → Provider

-- The index that `{identifier: index for index, identifier in enumerate(valid_ids)}` has for an
-- identifier: the last one.
unfoldable pub order_from : ℕ → List String → String → ℕ
order_from i [] s = i
order_from i (v ∷ vs) s =
    let rest = order_from (suc i) vs s in if v =s= s && not (contains vs s) then i else rest

-- `seen.intersection(ids)` is not empty.
abbrev pub intersects : List String → List String → Bool
intersects seen [] = false
intersects seen (s ∷ ss) = contains seen s || intersects seen ss

abbrev pub item_count : Items → ℕ
item_count Items.nil = 0
item_count (Items.cons v vs) = suc (item_count vs)

unfoldable pub edited_rows : List Collection → List Collection
edited_rows [] = []
edited_rows (c ∷ cs) = let rest = edited_rows cs in if c.user_edited then c ∷ rest else rest

module _ (py : Printing) (valid : List String) where
  abbrev pub suggested_clips : Option Value → Result Refusal (List String)
  suggested_clips (some (Value.arr items)) = requested_clips valid (py_strs py items)
  suggested_clips _ = err Refusal.malformed

  abbrev pub suggestion : String → String → Fields → List String → Collection
  suggestion id title fs clips = record {
    id = id;
    title = title;
    clip_ids = sort_by (order_from 0 valid) clips;
    source = "ai";
    user_edited = false;
    summary = first_chars summary_limit (squash (text_or py "" (get fs "summary")));
    render_path = Value.null;
  }

  -- The loop over the provider's collections: `ids` are fresh identifiers, `seen` the clips that are
  -- taken.
  unfoldable pub suggestions_from :
      (ℕ → String) → ℕ → List String → Items → Result Refusal (List Collection)
  unfolding requested_clips normalize_title squash first_chars order_from get
  suggestions_from ids k seen Items.nil = ok []
  suggestions_from ids k seen (Items.cons (Value.obj fs) vs) =
      normalize_title (text_or py "" (get fs "title")) >>= λ title.
      suggested_clips (get fs "clip_ids") >>= λ clips.
      if intersects seen clips
      then err Refusal.not_unique
      else suggestions_from ids (suc k) (seen ++ clips) vs >>= λ rest.
          ok (suggestion (ids k) title fs clips ∷ rest)
  suggestions_from ids k seen (Items.cons _ vs) = err Refusal.malformed

  abbrev pub suggested_items : (ℕ → String) → Option Value → Result Refusal (List Collection)
  suggested_items ids (some (Value.arr items)) =
      if ltb 8 (item_count items) then err Refusal.malformed else suggestions_from ids 0 [] items
  suggested_items ids _ = err Refusal.malformed

  -- `_provider_collections`
  unfoldable pub provider_collections : (ℕ → String) → Value → Result Refusal (List Collection)
  unfolding suggestions_from get
  provider_collections ids (Value.obj fs) = suggested_items ids (get fs "collections")
  provider_collections ids _ = err Refusal.malformed

  -- `_deterministic_fallback`
  unfoldable pub deterministic_fallback : String → List Collection
  deterministic_fallback id =
      if ltb (length valid) 2
      then []
      else record {
        id = id;
        title = "Highlights";
        clip_ids = valid;
        source = "deterministic";
        user_edited = false;
        summary = "Selected finalists grouped deterministically.";
        render_path = Value.null;
      }
        ∷ []

  abbrev pub or_fallback : String → Result Refusal (List Collection) → List Collection
  or_fallback id (ok rows) = rows
  or_fallback id (err e) = deterministic_fallback id

  unfoldable pub suggestions : (ℕ → String) → String → Provider → List Collection
  unfolding provider_collections deterministic_fallback
  suggestions ids id Provider.no_provider = deterministic_fallback id
  suggestions ids id Provider.raises = deterministic_fallback id
  suggestions ids id (Provider.replies v) = or_fallback id (provider_collections ids v)

  -- With fewer than two clips nothing is stored.
  unfoldable pub regenerate_smart_collections :
      String → File → (ℕ → String) → String → Provider → Result Refusal Saved
  unfolding load save edited_rows suggestions
  regenerate_smart_collections job file ids id provider = load py job valid file >>= λ existing.
      let preserved = edited_rows existing in
      if ltb (length valid) 2
      then ok (record { file = file; rows = preserved })
      else save py job valid (preserved ++ suggestions ids id provider)
