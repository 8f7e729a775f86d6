-- ===== src/Jobs/Artifacts/Validate.antt =====
-- `validate`, `manifest_path` and `update_manifest` of
-- pipeline/clipgauge_pipeline/jobs/artifacts.py.
pub mod Sound
pub mod Manifest
use clipgauge.Common.{
  ℕ, String, Bool, true, false, ◌&&◌, ◌||◌, not, Option, none, some, List, [], ◌∷◌, ok, err, ◌>>=◌,
  ◌>>◌, ◌=s=◌,
}
use clipgauge.Json.{
  Value, num, str, arr, obj, Items, nil, cons, Fields, end, field, get, put, as_text, as_object,
  is_text, is_num,
}
use clipgauge.Jobs.Artifacts.{
  FileSystem, Site, Descriptor, Raises, descriptor_schema_version, descriptors_json, managed_file,
  digest, prepare, restore, guard, checkpoint_malformed, checkpoint_stage_mismatch,
  checkpoint_schema_mismatch, checkpoint_descriptor_missing, checkpoint_descriptor_mismatch,
  artifact_descriptor_stale, artifact_path_invalid, artifact_stale, artifact_hash_invalid,
  artifact_hash_mismatch, artifact_manifest_invalid, artifact_manifest_stale,
  artifact_manifest_mismatch, uncaught, Code,
}

abbrev pub object_or : Code → Option Value → Raises Fields
object_or c (some (obj fs)) = ok fs
object_or c _ = err c

abbrev pub items_or : Code → Option Value → Raises Items
items_or c (some (arr xs)) = ok xs
items_or c _ = err c

abbrev pub text_or : Code → Option String → Raises String
text_or c (some s) = ok s
text_or c none = err c

-- `manifest_payload["stages"][stage]`, whose `.get` raises AttributeError unless it is an object.
abbrev pub entry_of : Option Value → Raises Fields
entry_of (some (obj fs)) = ok fs
entry_of (some _) = err uncaught
entry_of none = err artifact_manifest_invalid

-- A list or an object can stand in no set: TypeError.
abbrev pub is_hashable : Option Value → Bool
is_hashable (some (obj fs)) = false
is_hashable (some (arr xs)) = false
is_hashable _ = true

-- The roles, which `validate` puts into a set.
unfoldable pub has_hashable_roles : Items → Bool
has_hashable_roles nil = true
has_hashable_roles (cons (obj item) xs) =
    let rest = has_hashable_roles xs in is_hashable (get item "role") && rest
has_hashable_roles (cons _ xs) = has_hashable_roles xs

module _ (site : Site) where
  open site use {ops}

  -- One descriptor of the checkpoint against the file that it names.
  unfoldable pub check_descriptor : FileSystem → Fields → Raises (Unit {0})
  unfolding managed_file
  check_descriptor fs item = do
    guard (is_num (get item "schema_version") descriptor_schema_version) artifact_descriptor_stale
    relative ← text_or artifact_path_invalid (as_text (get item "relative_path"))
    guard (not (ops.is_absolute relative) && not (ops.has_parent_part relative))
        artifact_path_invalid
    file ← managed_file site fs relative
    guard
        (file.1 =s= relative
          && is_num (get item "size") (fs.size file.0)
          && is_num (get item "updated_at") (fs.mtime file.0))
        artifact_stale
    let sampled = is_text (get item "hash_algorithm") "sha256-sampled"
    guard (is_hashable (get item "hash_algorithm")) uncaught
    guard (sampled || is_text (get item "hash_algorithm") "sha256") artifact_hash_invalid
    guard (is_text (get item "integrity_hash") (digest site fs file.0 (fs.size file.0) sampled))
        artifact_hash_mismatch

  check_descriptors : FileSystem → Items → Raises (Unit {0})
  unfolding check_descriptor
  check_descriptors fs nil = ok tt
  check_descriptors fs (cons (obj item) xs) = do check_descriptor fs item; check_descriptors fs xs
  check_descriptors fs (cons _ xs) = err checkpoint_malformed

  abbrev same_artifacts : Items → Option Value → Bool
  same_artifacts descriptors none = false
  same_artifacts descriptors (some v) = ops.equal v (arr descriptors)

  abbrev pub check_entry : Fields → Items → ℕ → Raises (Unit {0})
  check_entry entry descriptors version = do
    guard (is_num (get entry "schema_version") version) artifact_manifest_stale
    guard (same_artifacts descriptors (get entry "artifacts")) artifact_manifest_mismatch

  -- The manifest is the one that can be read and parsed, if it can.
  unfoldable pub check_manifest : Option Value → Items → String → ℕ → Raises (Unit {0})
  check_manifest manifest descriptors stage version = do
    payload ← object_or artifact_manifest_invalid manifest
    stages ← object_or artifact_manifest_invalid (get payload "stages")
    entry ← entry_of (get stages stage)
    check_entry entry descriptors version

  -- The two sets of pairs (relative_path, role), by inclusion both ways.
  has_pair : String → String → Items → Bool
  has_pair path role nil = false
  has_pair path role (cons (obj item) xs) =
      (is_text (get item "relative_path") path && is_text (get item "role") role)
      || has_pair path role xs
  has_pair path role (cons _ xs) = has_pair path role xs

  expected_in_actual : List Descriptor → Items → Bool
  unfolding has_pair
  expected_in_actual [] xs = true
  expected_in_actual (d ∷ ds) xs = has_pair d.relative_path d.role xs && expected_in_actual ds xs

  described : Fields → List Descriptor → Bool
  described item [] = false
  described item (d ∷ ds) =
      (is_text (get item "relative_path") d.relative_path && is_text (get item "role") d.role)
      || described item ds

  actual_in_expected : Items → List Descriptor → Bool
  unfolding described
  actual_in_expected nil ds = true
  actual_in_expected (cons (obj item) xs) ds = described item ds && actual_in_expected xs ds
  actual_in_expected (cons _ xs) ds = false

  -- `manifest` is the manifest as it can be read and parsed, if it can.
  unfoldable pub validate : FileSystem → Option Value → Fields → String → ℕ → Raises Value
  unfolding check_descriptors check_manifest has_hashable_roles expected_in_actual
      actual_in_expected
  validate fs manifest envelope stage version = do
    guard (is_text (get envelope "stage") stage) checkpoint_stage_mismatch
    guard (is_num (get envelope "schema_version") version) checkpoint_schema_mismatch
    content ← object_or checkpoint_malformed (get envelope "data")
    descriptors ← items_or checkpoint_descriptor_missing (get envelope "artifacts")
    check_descriptors fs descriptors
    check_manifest manifest descriptors stage version
    prepared ← prepare site fs (obj content) stage
    guard (has_hashable_roles descriptors) uncaught
    guard (expected_in_actual prepared.1 descriptors && actual_in_expected descriptors prepared.1)
        checkpoint_descriptor_mismatch
    restore site fs (obj content)

  -- The manifest that was there, if it can be used.
  abbrev pub usable : Option Value → Fields
  usable (some (obj loaded)) = elim (as_object (get loaded "stages")) [
    | some stages ↦ loaded
    | none ↦ end
  ]
  usable _ = end

  abbrev pub set_default : String → Value → Fields → Fields
  set_default k v fs = elim (get fs k) [ some w ↦ fs | none ↦ put fs k v ]

  abbrev pub stages_of : Fields → Fields
  stages_of fs = elim (as_object (get fs "stages")) [ some stages ↦ stages | none ↦ end ]

  unfoldable pub manifest_entry : String → ℕ → List Descriptor → Value
  manifest_entry stage version descriptors = obj (
      field "schema_version" (num version) (
        field "producer_stage" (str stage) (
          field "producer_version" (str site.version)
            (field "artifacts" (arr (descriptors_json descriptors)) end))))

  unfoldable pub update_manifest : Option Value → String → ℕ → List Descriptor → ℕ → Fields
  update_manifest manifest stage version descriptors now =
      let existing =
        set_default "schema_version" (num descriptor_schema_version) (usable manifest) in
      let stamped = set_default "job_root" (str ".") (put existing "updated_at" (num now)) in
      put stamped "stages"
        (obj (put (stages_of stamped) stage (manifest_entry stage version descriptors)))
