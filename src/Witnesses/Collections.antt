-- ===== src/Witnesses/Collections.antt =====
-- The theorems about collections, at concrete inputs.
use clipgauge.Common.{
  String, ◌≡◌, refl, true, false, none, some, List, [], ◌∷◌, ◌++◌, arith, ok, map, Holds,
}
use clipgauge.Json.{Value, Items, Fields}
use clipgauge.Text.{is_space, strip}
use clipgauge.Collections.{Printing, Collection}
use clipgauge.Collections.Service.{
  File, Saved, document, load, requested_clips, normalize_title, create_collection,
  update_collection, set_collection_render_path, new_item, set_path,
}
use clipgauge.Collections.Smart.{Provider, regenerate_smart_collections}
use clipgauge.Collections.Stored.{IsStored}
use clipgauge.Collections.Changes.{create_collection-ok}
use clipgauge.Collections.Edits.{IsChanged, edit_row, set_collection_render_path-IsChanged}
use clipgauge.Collections.Accepted.{update_collection-ok}
use clipgauge.Collections.Regenerate.{IsRegenerated, regenerate_smart_collections-IsRegenerated}

abbrev plain : Printing
plain = record { shown = λ _. "None"; is_zero = λ _. false }

abbrev three_clips : List String
three_clips = "a" ∷ "b" ∷ "c" ∷ []

abbrev by_hand : Collection
by_hand = record {
  id = "one";
  title = "Best moments";
  clip_ids = "a" ∷ "b" ∷ [];
  source = "manual";
  user_edited = true;
  summary = "";
  render_path = Value.null;
}

abbrev by_machine : Collection
by_machine = record by_hand { id = "two"; source = "ai"; user_edited = false }

abbrev two_rows : List Collection
two_rows = by_hand ∷ by_machine ∷ []

abbrev some_file : File
some_file = File.holds (document "job" two_rows)

two_rows_loaded : load plain "job" three_clips some_file ≡ ok two_rows
unfolding load is_space
two_rows_loaded = refl

clips_requested : requested_clips three_clips (" b" ∷ "c" ∷ []) ≡ ok ("b" ∷ "c" ∷ [])
unfolding requested_clips is_space strip
clips_requested = refl

title_normalized : normalize_title "  Night   drive " ≡ ok "Night drive"
unfolding normalize_title is_space
title_normalized = refl

create_collection-ok_example :
    (saved : Saved) × (create_collection plain "job" three_clips some_file "three"
        "  Night   drive "
        (" b" ∷ "c" ∷ [])
        "manual"
        ""
      ≡ ok saved)
    × IsStored plain "job" three_clips saved
        (two_rows ++ new_item "three" "Night drive" ("b" ∷ "c" ∷ []) "manual" "" ∷ [])
create_collection-ok_example =
    create_collection-ok plain "job" three_clips some_file "three" "  Night   drive "
      (" b" ∷ "c" ∷ []) "manual" "" two_rows ("b" ∷ "c" ∷ []) "Night drive" refl two_rows_loaded
      clips_requested title_normalized refl

update_collection-ok_example :
    (saved : Saved) × (update_collection plain "job" three_clips some_file "two" none
        (some (" b" ∷ "c" ∷ []))
      ≡ ok saved)
    × IsStored plain "job" three_clips saved
        (map (edit_row "two" none (some (" b" ∷ "c" ∷ []))) two_rows)
update_collection-ok_example =
    update_collection-ok plain "job" three_clips some_file "two" none (some (" b" ∷ "c" ∷ []))
      two_rows two_rows_loaded refl refl tt ("b" ∷ "c" ∷ [], clips_requested)

set_collection_render_path-IsChanged_example :
    Holds
      (IsChanged plain "job" three_clips (set_path "one" "clips/one.mp4") some_file "one")
      (set_collection_render_path plain "job" three_clips some_file "one" "clips/one.mp4")
set_collection_render_path-IsChanged_example =
    set_collection_render_path-IsChanged plain "job" three_clips some_file "one" "clips/one.mp4"

abbrev a_reply : Provider
a_reply = Provider.replies (
    Value.obj (
      Fields.field "collections"
        (Value.arr (
          Items.cons
            (Value.obj (
              Fields.field "title" (Value.str "Roads") (
                Fields.field "clip_ids"
                  (Value.arr (Items.cons (Value.str "c") (Items.cons (Value.str "a") Items.nil)))
                  Fields.end)))
            Items.nil))
        Fields.end))

regenerate_smart_collections-IsRegenerated_example :
    (saved : Saved) × (regenerate_smart_collections plain three_clips "job" some_file
        (λ _. "new")
        "all"
        a_reply
      ≡ ok saved)
    × IsRegenerated plain three_clips "job" (λ _. "new") "all" a_reply two_rows saved
regenerate_smart_collections-IsRegenerated_example =
    regenerate_smart_collections-IsRegenerated plain three_clips "job" some_file (λ _. "new") "all"
      a_reply two_rows two_rows_loaded (omega arith) refl (λ _. refl) refl
