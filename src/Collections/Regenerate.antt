-- ===== src/Collections/Regenerate.antt =====
-- Regenerating the smart collections keeps what the creator has edited, whatever the provider does
-- (pipeline/clipgauge_pipeline/collections/service.py).
use clipgauge.Common.{
  ℕ, ◌≤◌, String, ◌≡◌, refl, subst, true, false, Option, none, some, List, [], ◌++◌, arith, ltb,
  if_ind, length, Result, ok, err, All, All-append, Holds,
}
use clipgauge.Json.{Value, get}
use clipgauge.Text.{is_blank, is_space}
use clipgauge.Collections.{Printing, Refusal, Collection}
use clipgauge.Collections.{are_unique}
use clipgauge.Collections.Service.{File, Saved}
use clipgauge.Collections.Smart.{
  Provider, edited_rows, suggested_items, provider_collections, deterministic_fallback, or_fallback,
  suggestions, regenerate_smart_collections, item_count,
}
use clipgauge.Collections.Stored.{IsValid, IsStored, save-IsStored}
use clipgauge.Collections.Checks.{load-Holds}
use clipgauge.Collections.Changes.{IsLoaded}
use clipgauge.Collections.Grouping.{
  AreApart, AreGood, all_in_self, edited_rows-All, suggestions_from-Holds,
}

module _ (py : Printing) (valid : List String) where
  -- Valid collections, no two of which have a clip in common.
  abbrev pub IsGrouping : List Collection → Type 0
  IsGrouping rows = All (IsValid valid) rows × AreApart rows

  suggested_items-Holds :
      (ids : ℕ → String) (v : Option Value)
      → ((j : ℕ) → is_blank (ids j) ≡ false)
      → Holds (AreGood py valid []) (suggested_items py valid ids v)
  suggested_items-Holds ids (some (Value.arr items)) n =
      if_ind (Holds (AreGood py valid [])) (ltb 8 (item_count items)) (λ _. tt)
        (λ _. suggestions_from-Holds py valid ids 0 [] items n)
  suggested_items-Holds ids (some (Value.obj o)) n = tt
  suggested_items-Holds ids (some (Value.str s)) n = tt
  suggested_items-Holds ids (some (Value.num m)) n = tt
  suggested_items-Holds ids (some (Value.number l)) n = tt
  suggested_items-Holds ids (some (Value.bool b)) n = tt
  suggested_items-Holds ids (some Value.null) n = tt
  suggested_items-Holds ids none n = tt

  provider_collections-Holds :
      (ids : ℕ → String) (v : Value)
      → ((j : ℕ) → is_blank (ids j) ≡ false)
      → Holds (AreGood py valid []) (provider_collections py valid ids v)
  unfolding provider_collections
  provider_collections-Holds ids (Value.obj fs) n =
      suggested_items-Holds ids (get fs "collections") n
  provider_collections-Holds ids (Value.arr o) n = tt
  provider_collections-Holds ids (Value.str s) n = tt
  provider_collections-Holds ids (Value.num m) n = tt
  provider_collections-Holds ids (Value.number l) n = tt
  provider_collections-Holds ids (Value.bool b) n = tt
  provider_collections-Holds ids Value.null n = tt

  deterministic_fallback-IsGrouping :
      (id : String)
      → is_blank id ≡ false
      → are_unique valid ≡ true
      → IsGrouping (deterministic_fallback py valid id)
  unfolding deterministic_fallback is_space
  deterministic_fallback-IsGrouping id n u =
      if_ind IsGrouping (ltb (length valid) 2) (λ _. (tt, tt))
        (λ _. (
          (
            record {
              named = n;
              titled = refl;
              short = omega arith;
              brief = omega arith;
              unique = u;
              known = all_in_self valid;
            },
            tt,
          ),
          (tt, tt),
        ))

  suggestions-IsGrouping :
      (ids : ℕ → String) (id : String) (provider : Provider)
      → ((j : ℕ) → is_blank (ids j) ≡ false)
      → is_blank id ≡ false
      → are_unique valid ≡ true
      → IsGrouping (suggestions py valid ids id provider)
  unfolding suggestions
  suggestions-IsGrouping ids id Provider.no_provider n m u =
      deterministic_fallback-IsGrouping id m u
  suggestions-IsGrouping ids id Provider.raises n m u = deterministic_fallback-IsGrouping id m u
  suggestions-IsGrouping ids id (Provider.replies v) n m u =
      fall_back (provider_collections py valid ids v) (provider_collections-Holds ids v n)
    where
      fall_back :
          (r : Result Refusal (List Collection))
          → Holds (AreGood py valid []) r
          → IsGrouping (or_fallback py valid id r)
      fall_back (ok rows) g = (g.good, g.apart)
      fall_back (err e) g = deterministic_fallback-IsGrouping id m u

  -- What is stored, for collections that were loaded.
  abbrev pub IsRegenerated :
      String → (ℕ → String) → String → Provider → List Collection → Saved → Type 0
  IsRegenerated job ids id provider rows saved =
      IsGrouping (suggestions py valid ids id provider)
      × IsStored py job valid saved (edited_rows rows ++ suggestions py valid ids id provider)

  -- Where the stored file is missing or loads, for at least two clips, no two with one identifier, and
  -- fresh identifiers that are not empty: whatever the provider does, regenerating succeeds; the file then holds the collections that were
  -- edited by hand, and behind them suggestions that are valid and have no clip in common;
  -- all are tidied, that is without the blank that cutting a text to its limit may leave at its end.
  pub regenerate_smart_collections-IsRegenerated :
      (job : String) (file : File) (ids : ℕ → String) (id : String) (provider : Provider)
      (rows : List Collection)
      → IsLoaded py job valid file rows
      → 2 ≤ length valid
      → are_unique valid ≡ true
      → ((j : ℕ) → is_blank (ids j) ≡ false)
      → is_blank id ≡ false
      → (saved : Saved) × (regenerate_smart_collections py valid job file ids id provider
          ≡ ok saved)
        × IsRegenerated job ids id provider rows saved
  unfolding regenerate_smart_collections
  regenerate_smart_collections-IsRegenerated job file ids id provider rows e two u n m =
      let v = subst (Holds (All (IsValid valid))) e (load-Holds py valid job file) in
      let new = suggestions py valid ids id provider in
      let g = suggestions-IsGrouping ids id provider n m u in
      let s =
        save-IsStored py job valid (edited_rows rows ++ new)
          (All-append (IsValid valid) (edited_rows rows) new (edited_rows-All valid rows v) g.0) in
      (s.0, rw (e, enough (length valid) two) s.1, (g, s.2))
    where
      enough : (k : ℕ) → 2 ≤ k → ltb k 2 ≡ false
      enough k h = ground arith
