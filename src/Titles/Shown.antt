-- ===== src/Titles/Shown.antt =====
-- A title that is set is the title that is shown (pipeline/clipgauge_pipeline/creator_state.py).
use clipgauge.Common.{
  ℕ, suc, String, ◌≡◌, refl, ◌∙◌, sym, ap, subst, true, false, some, List, [], ◌∷◌, ◌⊎◌, inl, inr,
  ◌=s=◌, eq_iff, eq_refl, text_sym, Bool-cases,
}
use clipgauge.Json.{Value, Fields, get, put, get-put}
use clipgauge.Text.{is_blank}
use clipgauge.Collections.{Printing}
use clipgauge.Titles.{Naming, entry, clip_id_for, show_title, apply_from}

-- What is shown of a clip whose title the creator has set.
pub record IsTitled (identifier title : String) (clip : Fields) : Type 0 where
  pub titled : get clip "title" ≡ some (Value.str title)
  pub sourced : get clip "title_source" ≡ some (Value.str "user")
  pub identified : get clip "clip_id" ≡ some (Value.str identifier)

show_title-IsTitled :
    (py : Printing) (naming : Naming) (identifier title now : String) (clip : Fields)
    → is_blank title ≡ false
    → IsTitled identifier title (show_title py naming identifier clip (some (entry title now)))
unfolding get
show_title-IsTitled py naming identifier title now clip h =
    let named = put clip "clip_id" (Value.str identifier) in
    let titled = put named "title" (Value.str title) in
    rw h (record {
      titled =
          get-put titled "title_source" "title" (Value.str "user")
          ∙ get-put named "title" "title" (Value.str title);
      sourced = get-put titled "title_source" "title_source" (Value.str "user");
      identified =
          get-put titled "title_source" "clip_id" (Value.str "user")
          ∙ get-put named "title" "clip_id" (Value.str title)
          ∙ get-put clip "clip_id" "clip_id" (Value.str identifier);
    })

module _ (py : Printing) (naming : Naming) (identifier title now : String) where
  -- Clip for clip: titled if it has the identifier, and otherwise as it was shown before.
  abbrev pub Shows : ℕ → List Fields → List Fields → List Fields → Type 0
  Shows i (c ∷ cs) (d ∷ ds) (e ∷ es) =
      (((clip_id_for py naming c i =s= identifier) ≡ true × IsTitled identifier title d)
        ⊎ ((clip_id_for py naming c i =s= identifier) ≡ false × (d ≡ e)))
      × Shows (suc i) cs ds es
  Shows i [] [] [] = Unit
  Shows i _ _ _ = ⊥

  one :
      (key : String) (entries clip : Fields)
      → is_blank title ≡ false
      → ((key =s= identifier) ≡ true
          × IsTitled identifier title
              (show_title py naming key clip (get (put entries identifier (entry title now)) key)))
        ⊎ ((key =s= identifier) ≡ false
            × (show_title py naming key clip (get (put entries identifier (entry title now)) key)
                ≡ show_title py naming key clip (get entries key)))
  one key entries clip h = elim (Bool-cases (key =s= identifier)) [
    | inl e ↦ inl (
      e,
      subst
          (λ j.
            IsTitled identifier title
              (show_title py naming j clip (get (put entries identifier (entry title now)) j)))
          (sym ((eq_iff key identifier).0 e))
          (rw (get-put entries identifier identifier (entry title now), eq_refl identifier)
            (show_title-IsTitled py naming identifier title now clip h)),
    )
    | inr e ↦ inr (
      e,
      ap (show_title py naming key clip)
          (get-put entries identifier key (entry title now) ∙ rw (text_sym identifier key, e) refl),
    )
  ]

  -- Once a title that is not blank is entered for an identifier, the clips with that identifier
  -- are shown with it, as the creator's, and all others as before.
  pub apply_from-put :
      (i : ℕ) (entries : Fields) (clips : List Fields)
      → is_blank title ≡ false
      → Shows i clips
          (apply_from py naming i (put entries identifier (entry title now)) clips)
          (apply_from py naming i entries clips)
  unfolding apply_from
  apply_from-put i entries [] h = tt
  apply_from-put i entries (c ∷ cs) h =
      (one (clip_id_for py naming c i) entries c h, apply_from-put (suc i) entries cs h)
