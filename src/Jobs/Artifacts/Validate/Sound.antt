-- ===== src/Jobs/Artifacts/Validate/Sound.antt =====
-- What `validate` has established when it returns
-- (pipeline/clipgauge_pipeline/jobs/artifacts.py).
use clipgauge.Common.{
  ℕ, String, ◌≡◌, refl, subst, Bool, true, false, Option, none, some, arith, eq_iff, ok, err, inl,
  inr, Bool-cases,
}
use clipgauge.Json.{Value, str, arr, obj, Items, nil, cons, Fields, get, is_text, is_num}
use clipgauge.Jobs.Artifacts.{FileSystem, Site, Raises, algorithm, managed_file, digest, restore}
use clipgauge.Jobs.Artifacts.Managed.{IsManaged, managed_file_iff}
use clipgauge.Jobs.Artifacts.Validate.{
  check_descriptor, check_descriptors, check_manifest, validate,
}

pub is_text-some : (o : Option Value) (s : String) → is_text o s ≡ true → o ≡ some (str s)
is_text-some (some (str t)) s h = ground (arith, eq_iff t s)
is_text-some none s h = cc
is_text-some (some _) s h = cc

-- The manifest has an entry for the stage, with the schema version and with artifacts that are equal
-- to the descriptors.
pub record IsListed (site : Site) (manifest : Option Value) (descriptors : Items) (stage : String)
    (version : ℕ) : Type 0 where
  pub payload : Fields
  pub stages : Fields
  pub entry : Fields
  pub artifacts : Value
  pub found : manifest ≡ some (obj payload)
  pub has_stages : get payload "stages" ≡ some (obj stages)
  pub has_entry : get stages stage ≡ some (obj entry)
  pub same_version : is_num (get entry "schema_version") version ≡ true
  pub has_artifacts : get entry "artifacts" ≡ some artifacts
  pub same_artifacts : site.ops.equal artifacts (arr descriptors) ≡ true

check_manifest-IsListed :
    (site : Site) (manifest : Option Value) (ds : Items) (stage : String) (version : ℕ)
    → check_manifest site manifest ds stage version ≡ ok tt
    → IsListed site manifest ds stage version
unfolding check_manifest
check_manifest-IsListed site (some (obj payload)) ds stage version h =
    by_stages (get payload "stages") refl
  where
    by_artifacts :
        (stages entry : Fields) (o : Option Value)
        → get payload "stages" ≡ some (obj stages)
        → get stages stage ≡ some (obj entry)
        → get entry "artifacts" ≡ o
        → IsListed site (some (obj payload)) ds stage version
    by_artifacts stages entry (some artifacts) e f g = record {
      payload = payload;
      stages = stages;
      entry = entry;
      artifacts = artifacts;
      found = refl;
      has_stages = e;
      has_entry = f;
      same_version = ground arith;
      has_artifacts = g;
      same_artifacts = ground arith;
    }
    by_artifacts stages entry none e f g = absurd (ground arith)

    by_entry :
        (stages : Fields) (o : Option Value)
        → get payload "stages" ≡ some (obj stages)
        → get stages stage ≡ o
        → IsListed site (some (obj payload)) ds stage version
    by_entry stages (some (obj entry)) e f =
        by_artifacts stages entry (get entry "artifacts") e f refl
    by_entry stages _ e f = absurd (ground arith)

    by_stages :
        (o : Option Value)
        → get payload "stages" ≡ o
        → IsListed site (some (obj payload)) ds stage version
    by_stages (some (obj stages)) e = by_entry stages (get stages stage) e refl
    by_stages _ e = absurd (ground arith)
check_manifest-IsListed site _ ds stage version h = absurd (ground arith)

-- The file that a descriptor names stands below the job directory and is, in size, time and
-- content, the one that was described.
pub record Describes (site : Site) (fs : FileSystem) (item : Fields) : Type 0 where
  pub relative : String
  pub resolved : String
  pub sampled : Bool
  pub named : get item "relative_path" ≡ some (str relative)
  pub not_absolute : site.ops.is_absolute relative ≡ false
  pub no_parent : site.ops.has_parent_part relative ≡ false
  pub managed : IsManaged site fs relative resolved relative
  pub same_size : is_num (get item "size") (fs.size resolved) ≡ true
  pub same_time : is_num (get item "updated_at") (fs.mtime resolved) ≡ true
  pub same_policy : get item "hash_algorithm" ≡ some (str (algorithm sampled))
  pub same_content :
      is_text (get item "integrity_hash") (digest site fs resolved (fs.size resolved) sampled)
      ≡ true

module _ (site : Site) (fs : FileSystem) where
  abbrev is_sampled : Fields → Bool
  is_sampled item = is_text (get item "hash_algorithm") "sha256-sampled"

  accepted-Describes :
      (item : Fields) (relative resolved actual : String)
      → get item "relative_path" ≡ some (str relative)
      → managed_file site fs relative ≡ ok (resolved, actual)
      → check_descriptor site fs item ≡ ok tt
      → Describes site fs item
  unfolding check_descriptor
  accepted-Describes item relative resolved actual e m h =
      let same : actual ≡ relative = ground (arith, eq_iff actual relative) in
      record {
        relative = relative;
        resolved = resolved;
        sampled = is_sampled item;
        named = e;
        not_absolute = ground arith;
        no_parent = ground arith;
        managed =
            subst (IsManaged site fs relative resolved) same
              ((managed_file_iff site fs relative resolved actual).0 m);
        same_size = ground arith;
        same_time = ground arith;
        same_policy = elim (Bool-cases (is_sampled item)) [
          | inl e ↦ rw e (is_text-some _ _ e)
          | inr e ↦ rw e (is_text-some _ "sha256" (ground (arith, e)))
        ];
        same_content = ground arith;
      }

  check_descriptor-Describes :
      (item : Fields) → check_descriptor site fs item ≡ ok tt → Describes site fs item
  unfolding check_descriptor
  check_descriptor-Describes item h = by_name (get item "relative_path") refl
    where
      by_file :
          (relative : String) (file : Raises (String × String))
          → get item "relative_path" ≡ some (str relative)
          → managed_file site fs relative ≡ file
          → Describes site fs item
      by_file relative (ok (resolved, actual)) e m =
          accepted-Describes item relative resolved actual e m h
      by_file relative (err c) e m = absurd (ground arith)

      by_name : (name : Option Value) → get item "relative_path" ≡ name → Describes site fs item
      by_name (some (str relative)) e = by_file relative (managed_file site fs relative) e refl
      by_name _ e = absurd (ground arith)

  -- Every item of a list of descriptors is an object that describes its file.
  abbrev pub AllDescribe : Items → Type 0
  AllDescribe nil = Unit
  AllDescribe (cons (obj item) xs) = Describes site fs item × AllDescribe xs
  AllDescribe (cons _ xs) = ⊥

  check_descriptors-AllDescribe :
      (xs : Items) → check_descriptors site fs xs ≡ ok tt → AllDescribe xs
  unfolding check_descriptors
  check_descriptors-AllDescribe nil h = tt
  check_descriptors-AllDescribe (cons (obj item) xs) h = (
    check_descriptor-Describes item (ground arith),
    check_descriptors-AllDescribe xs (ground arith),
  )
  check_descriptors-AllDescribe (cons _ xs) h = cc

  -- What `validate` has established.
  pub record IsValid (manifest : Option Value) (e : Fields) (stage : String) (version : ℕ)
      (v : Value) : Type 0 where
    pub content : Fields
    pub descriptors : Items
    pub same_stage : is_text (get e "stage") stage ≡ true
    pub same_version : is_num (get e "schema_version") version ≡ true
    pub has_data : get e "data" ≡ some (obj content)
    pub has_descriptors : get e "artifacts" ≡ some (arr descriptors)
    pub described : AllDescribe descriptors
    pub in_manifest : check_manifest site manifest descriptors stage version ≡ ok tt
    pub listed : IsListed site manifest descriptors stage version
    pub restored : restore site fs (obj content) ≡ ok v

  pub validate-IsValid :
      (manifest : Option Value) (e : Fields) (stage : String) (version : ℕ) (v : Value)
      → validate site fs manifest e stage version ≡ ok v
      → IsValid manifest e stage version v
  unfolding validate
  validate-IsValid manifest e stage version v h =
      by_data (get e "data") (get e "artifacts") refl refl
    where
      by_data :
          (content artifacts : Option Value)
          → get e "data" ≡ content
          → get e "artifacts" ≡ artifacts
          → IsValid manifest e stage version v
      by_data (some (obj content)) (some (arr descriptors)) d a = record {
        content = content;
        descriptors = descriptors;
        same_stage = ground arith;
        same_version = ground arith;
        has_data = d;
        has_descriptors = a;
        described = check_descriptors-AllDescribe descriptors (ground arith);
        in_manifest = ground arith;
        listed = check_manifest-IsListed site manifest descriptors stage version (ground arith);
        restored = ground arith;
      }
      by_data (some (obj content)) _ d a = absurd (ground arith)
      by_data _ artifacts d a = absurd (ground arith)

  -- The manifest matters only for the entry of the stage.
  pub validate-other_manifest :
      (m m' : Option Value) (e : Fields) (stage : String) (version : ℕ) (v : Value)
      → ((ds : Items)
          → check_manifest site m ds stage version ≡ ok tt
          → check_manifest site m' ds stage version ≡ ok tt)
      → validate site fs m e stage version ≡ ok v
      → validate site fs m' e stage version ≡ ok v
  unfolding validate
  validate-other_manifest m m' e stage version v keeps h =
      let valid = validate-IsValid m e stage version v h in
      let kept = keeps valid.descriptors valid.in_manifest in
      ground (arith, valid.has_data, valid.has_descriptors, valid.in_manifest)
