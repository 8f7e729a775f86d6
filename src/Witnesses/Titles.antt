-- ===== src/Witnesses/Titles.antt =====
-- The theorems about titles, at concrete inputs.
use clipgauge.Common.{◌≡◌, refl, true, false, some, List, [], ◌∷◌, ok}
use clipgauge.Json.{Value, Fields, put}
use clipgauge.Text.{is_space, strip}
use clipgauge.Collections.{Printing, contains}
use clipgauge.Collections.Service.{File}
use clipgauge.Titles.{
  Naming, Kept, entry, overrides, load_title_overrides, normalize_override, set_title_override,
  apply_from,
}
use clipgauge.Titles.Stored.{IsKept, set_title_override-IsKept}
use clipgauge.Titles.Shown.{Shows, apply_from-put}

abbrev bare : Printing
bare = record { shown = λ _. "None"; is_zero = λ _. false }

abbrev one_entry : Fields
one_entry = Fields.field "b" (entry "Old" "then") Fields.end

abbrev kept_file : File
kept_file = File.holds (overrides "job" one_entry)

entry_loaded : load_title_overrides bare kept_file ≡ ok one_entry
unfolding load_title_overrides is_space
entry_loaded = refl

b_known : contains ("a" ∷ "b" ∷ []) (strip "b") ≡ true
unfolding strip is_space
b_known = refl

override_normalized : normalize_override " Night  drive" ≡ ok "Night drive"
unfolding normalize_override is_space
override_normalized = refl

set_title_override-IsKept_example :
    (kept : Kept) × (set_title_override bare "job"
        ("a" ∷ "b" ∷ [])
        kept_file
        "b"
        " Night  drive"
        "now"
      ≡ ok kept)
    × IsKept bare one_entry (strip "b") (some (entry "Night drive" "now")) kept
set_title_override-IsKept_example =
    set_title_override-IsKept bare "job" ("a" ∷ "b" ∷ []) kept_file "b" " Night  drive" "now"
      "Night drive" one_entry entry_loaded b_known override_normalized

abbrev numbered : Naming
numbered = record { decimal = λ _. "0"; fixed3 = λ _. "0.000"; sha256 = λ s. s }

abbrev two_clips : List Fields
two_clips =
    Fields.field "clip_id" (Value.str "a") (Fields.field "title" (Value.str "First") Fields.end)
    ∷ Fields.field "clip_id" (Value.str "b") Fields.end
    ∷ []

apply_from-put_example :
    Shows bare numbered "a" "Mine" "now" 0 two_clips
      (apply_from bare numbered 0 (put one_entry "a" (entry "Mine" "now")) two_clips)
      (apply_from bare numbered 0 one_entry two_clips)
apply_from-put_example = apply_from-put bare numbered "a" "Mine" "now" 0 one_entry two_clips refl
