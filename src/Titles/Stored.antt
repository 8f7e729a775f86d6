-- ===== src/Titles/Stored.antt =====
-- A title that is set is loaded again (pipeline/clipgauge_pipeline/creator_state.py).
use clipgauge.Common.{
  String, ◌≡◌, refl, ◌∙◌, subst, true, false, ◌||◌, Option, none, some, List, arith, ltb, if_ind,
  ok, Holds, Holds-bind, ◌=s=◌, eq_refl,
}
use clipgauge.Json.{Value, Fields, get, put, without, get-put, get-without, as_object, is_num}
use clipgauge.Text.{is_blank, squash, strip, char_count}
use clipgauge.Text.Words.{squash-squash}
use clipgauge.Collections.{Printing, contains, text_or}
use clipgauge.Collections.Service.{File}
use clipgauge.Titles.{
  override_title_limit, entry, normalize_override, Kept, keep, load_entry, load_entries, load_clips,
  load_object, override_schema_version, load_title_overrides, set_title_override,
  reset_title_override,
}

-- A title as it is stored: squashed, not blank, and within the limit.
pub record IsTitle (t : String) : Type 0 where
  pub squashed : squash t ≡ t
  pub nonblank : is_blank t ≡ false
  pub short : ltb override_title_limit (char_count t) ≡ false

abbrev pub IsEntry : Value → Type 0
IsEntry v = (t : String) × (now : String) × (v ≡ entry t now) × IsTitle t

abbrev pub AreEntries : Fields → Type 0
AreEntries Fields.end = Unit
AreEntries (Fields.field k v fs) = IsEntry v × AreEntries fs

normalize_override-Holds : (title : String) → Holds IsTitle (normalize_override title)
unfolding normalize_override
normalize_override-Holds title =
    if_ind (Holds IsTitle) (is_blank (squash title)) (λ _. tt)
      (λ b.
        if_ind (Holds IsTitle) (ltb override_title_limit (char_count (squash title))) (λ _. tt)
          (λ s. record { squashed = squash-squash title; nonblank = b; short = s }))

put-AreEntries :
    (fs : Fields) (k : String) (v : Value) → AreEntries fs → IsEntry v → AreEntries (put fs k v)
unfolding put
put-AreEntries Fields.end k v h e = (e, tt)
put-AreEntries (Fields.field j w fs) k v h e =
    if_ind AreEntries (j =s= k) (λ _. (e, h.1)) (λ _. (h.0, put-AreEntries fs k v h.1 e))

without-AreEntries : (fs : Fields) (k : String) → AreEntries fs → AreEntries (without fs k)
unfolding without
without-AreEntries Fields.end k h = tt
without-AreEntries (Fields.field j w fs) k h =
    if_ind AreEntries (j =s= k) (λ _. without-AreEntries fs k h.1)
      (λ _. (h.0, without-AreEntries fs k h.1))

module _ (py : Printing) where
  load_entry-entry : (v : Value) → IsEntry v → load_entry py v ≡ ok v
  unfolding get
  load_entry-entry v (t, now, e, i) = rw e (rw (i.squashed, i.nonblank, i.short) refl)

  load_entries-AreEntries : (fs : Fields) → AreEntries fs → load_entries py fs ≡ ok fs
  unfolding load_entries
  load_entries-AreEntries Fields.end h = refl
  load_entries-AreEntries (Fields.field k v fs) h =
      rw (load_entry-entry v h.0, load_entries-AreEntries fs h.1) refl

  load_entry-Holds : (v : Value) → Holds IsEntry (load_entry py v)
  load_entry-Holds (Value.obj fs) =
      let title = text_or py "" (get fs "title") in
      if_ind (Holds IsEntry)
        (is_blank (squash title) || ltb override_title_limit (char_count (squash title))) (λ _. tt)
        (λ e. (
          squash title,
          text_or py "" (get fs "updated_at"),
          refl,
          record { squashed = squash-squash title; nonblank = ground arith; short = ground arith },
        ))
  load_entry-Holds (Value.arr o) = tt
  load_entry-Holds (Value.str s) = tt
  load_entry-Holds (Value.num m) = tt
  load_entry-Holds (Value.number l) = tt
  load_entry-Holds (Value.bool b) = tt
  load_entry-Holds Value.null = tt

  load_entries-Holds : (fs : Fields) → Holds AreEntries (load_entries py fs)
  unfolding load_entries
  load_entries-Holds Fields.end = tt
  load_entries-Holds (Fields.field k v fs) =
      Holds-bind IsEntry AreEntries (load_entry py v) _ (load_entry-Holds v) (λ e i.
        Holds-bind AreEntries AreEntries (load_entries py fs) (λ rest. ok (Fields.field k e rest))
          (load_entries-Holds fs) (λ rest r. (i, r)))

  load_clips-Holds : (fs : Option Fields) → Holds AreEntries (load_clips py fs)
  load_clips-Holds none = tt
  load_clips-Holds (some fs) = load_entries-Holds fs

  load_object-Holds : (fs : Option Fields) → Holds AreEntries (load_object py fs)
  load_object-Holds none = tt
  load_object-Holds (some fs) =
      if_ind (Holds AreEntries) (is_num (get fs "schema_version") override_schema_version)
        (λ _. load_clips-Holds (as_object (get fs "clips"))) (λ _. tt)

  load-Holds : (file : File) → Holds AreEntries (load_title_overrides py file)
  unfolding load_title_overrides
  load-Holds File.absent = tt
  load-Holds File.garbled = tt
  load-Holds (File.holds v) = load_object-Holds (as_object (some v))

  loaded-AreEntries :
      (file : File) (clips : Fields) → load_title_overrides py file ≡ ok clips → AreEntries clips
  loaded-AreEntries file clips e = subst (Holds AreEntries) e (load-Holds file)

  keep-loaded :
      (job : String) (clips : Fields)
      → AreEntries clips
      → load_title_overrides py (keep job clips).file ≡ ok clips
  unfolding load_title_overrides get
  keep-loaded job clips h = load_entries-AreEntries clips h

  -- What is kept is what the file gives, and differs from the former clips at one key.
  pub record IsKept (before : Fields) (key : String) (now : Option Value) (kept : Kept)
      : Type 0 where
    pub again : load_title_overrides py kept.file ≡ ok kept.clips
    pub at_key : get kept.clips key ≡ now
    pub elsewhere : (j : String) → (key =s= j) ≡ false → get kept.clips j ≡ get before j

  -- A title that is not blank and within the limit, set for a clip of the job, is loaded again
  -- under the clip's identifier, and all other titles are as they were.
  pub set_title_override-IsKept :
      (job : String) (valid : List String) (file : File) (clip_id title now name : String)
      (clips : Fields)
      → load_title_overrides py file ≡ ok clips
      → contains valid (strip clip_id) ≡ true
      → normalize_override title ≡ ok name
      → (kept : Kept) × (set_title_override py job valid file clip_id title now ≡ ok kept)
        × IsKept clips (strip clip_id) (some (entry name now)) kept
  unfolding set_title_override
  set_title_override-IsKept job valid file clip_id title now name clips e there n =
      let i = subst (Holds IsTitle) n (normalize_override-Holds title) in
      let key = strip clip_id in
      let after = put clips key (entry name now) in
      (
        keep job after,
        rw (there, n, e) refl,
        record {
          again = keep-loaded job after (
              put-AreEntries clips key (entry name now) (loaded-AreEntries file clips e)
                (name, now, refl, i));
          at_key = get-put clips key key (entry name now) ∙ rw (eq_refl key) refl;
          elsewhere = λ j ne. get-put clips key j (entry name now) ∙ rw ne refl;
        },
      )

  -- After a reset the clip of the job has no title of the creator's, and all other titles are as
  -- they were.
  pub reset_title_override-IsKept :
      (job : String) (valid : List String) (file : File) (clip_id : String) (clips : Fields)
      → load_title_overrides py file ≡ ok clips
      → contains valid (strip clip_id) ≡ true
      → (kept : Kept) × (reset_title_override py job valid file clip_id ≡ ok kept)
        × IsKept clips (strip clip_id) none kept
  unfolding reset_title_override
  reset_title_override-IsKept job valid file clip_id clips e there =
      let key = strip clip_id in
      let after = without clips key in
      (
        keep job after,
        rw (there, e) refl,
        record {
          again =
              keep-loaded job after (without-AreEntries clips key (loaded-AreEntries file clips e));
          at_key = get-without clips key key ∙ rw (eq_refl key) refl;
          elsewhere = λ j ne. get-without clips key j ∙ rw ne refl;
        },
      )
