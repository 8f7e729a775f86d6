-- ===== src/Jobs/Artifacts/Validate/Manifest.antt =====
-- The artifact manifest holds one entry for each stage
-- (`update_manifest` of pipeline/clipgauge_pipeline/jobs/artifacts.py).
use clipgauge.Common.{
  ℕ, String, ◌≡◌, refl, ap, ◌∙◌, true, false, Option, none, some, List, arith, eq_refl, ok,
  Option-cases, inl, inr, ◌=s=◌, ◌>>=◌,
}
use clipgauge.Json.{Value, num, str, arr, obj, Items, Fields, end, get, put, get-put, as_object}
use clipgauge.Jobs.Artifacts.{Site, Descriptor, descriptors_json, descriptor_schema_version}
use clipgauge.Jobs.Artifacts.Validate.{
  entry_of, check_entry, check_manifest, update_manifest, manifest_entry, usable, set_default,
  stages_of,
}

module _ (site : Site) where
  get-set_default_other :
      (fs : Fields) (k j : String) (v : Value)
      → (k =s= j) ≡ false
      → get (set_default site k v fs) j ≡ get fs j
  get-set_default_other fs k j v apart = elim (Option-cases (get fs k)) [
    | inl absent ↦ rw (absent, set_default) (rw (get-put fs k j v) (rw apart refl))
    | inr (w, there) ↦ rw (there, set_default) refl
  ]

  -- The stages of the manifest that was there, if it can be used.
  abbrev pub old_stages : Option Value → Fields
  old_stages m = stages_of site (usable site m)

  abbrev stamped : Option Value → ℕ → Fields
  stamped m now =
      let existing =
        set_default site "schema_version" (num descriptor_schema_version) (usable site m) in
      set_default site "job_root" (str ".") (put existing "updated_at" (num now))

  get-stamped :
      (m : Option Value) (now : ℕ) → get (stamped m now) "stages" ≡ get (usable site m) "stages"
  get-stamped m now =
      let existing =
        set_default site "schema_version" (num descriptor_schema_version) (usable site m) in
      get-set_default_other (put existing "updated_at" (num now)) "job_root" "stages" (str ".") refl
      ∙ get-put existing "updated_at" "stages" (num now)
      ∙ get-set_default_other (usable site m) "schema_version" "stages"
          (num descriptor_schema_version) refl

  old_entry :
      (m : Option Value) (other : String) (version : ℕ) (ds : Items)
      → check_manifest site m ds other version ≡ ok tt
      → (entry_of (get (old_stages m) other) >>= λ e. check_entry site e ds version) ≡ ok tt
  unfolding check_manifest
  old_entry (some (obj p)) other version ds h = by_stages (get p "stages") refl
    where
      by_stages :
          (o : Option Value)
          → get p "stages" ≡ o
          → (entry_of (get (old_stages (some (obj p))) other) >>= λ e.
              check_entry site e ds version)
            ≡ ok tt
      by_stages (some (obj stages)) e = ground arith
      by_stages _ e = absurd (ground arith)
  old_entry _ other version ds h = cc

  abbrev stages_in : Option Value → Fields
  stages_in o = elim (as_object o) [ some stages ↦ stages | none ↦ end ]

  module _ (m : Option Value) (stage : String) (version : ℕ) (descriptors : List Descriptor)
      (now : ℕ) where
    abbrev entry : Value
    entry = manifest_entry site stage version descriptors

    -- The entries of the new manifest: those of a usable old one, but for the stage written.
    pub get-update_manifest :
        get (update_manifest site m stage version descriptors now) "stages"
        ≡ some (obj (put (old_stages m) stage entry))
    unfolding update_manifest
    get-update_manifest =
        get-put (stamped m now) "stages" "stages" _
        ∙ ap (λ o. some (obj (put (stages_in o) stage entry))) (get-stamped m now)

    -- The manifest that is written agrees with the checkpoint that it is written for.
    pub check_manifest-update_self :
        ((v : Value) → site.ops.equal v v ≡ true)
        → check_manifest site
            (some (obj (update_manifest site m stage version descriptors now)))
            (descriptors_json descriptors)
            stage
            version
          ≡ ok tt
    unfolding check_manifest
    check_manifest-update_self same = rw get-update_manifest (
        rw (get-put (old_stages m) stage stage entry) (
          rw (eq_refl stage) (
            unfold manifest_entry get in
            ground (arith, same (arr (descriptors_json descriptors))))))

    -- It agrees with the checkpoint of every other stage that the old one agreed with.
    pub check_manifest-update_other :
        (other : String) (version' : ℕ) (ds : Items)
        → (stage =s= other) ≡ false
        → check_manifest site m ds other version' ≡ ok tt
        → check_manifest site
            (some (obj (update_manifest site m stage version descriptors now)))
            ds
            other
            version'
          ≡ ok tt
    unfolding check_manifest
    check_manifest-update_other other version' ds apart h =
        rw get-update_manifest (
          rw (get-put (old_stages m) stage other entry)
            (rw apart (old_entry m other version' ds h)))
