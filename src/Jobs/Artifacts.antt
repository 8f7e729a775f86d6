-- ===== src/Jobs/Artifacts.antt =====
-- Descriptors of the files that checkpoints refer to
-- (pipeline/clipgauge_pipeline/jobs/artifacts.py). `pathlib`, the file system, `mimetypes`, SHA-256
-- and the text methods of Python are the records `PathOps` and `FileSystem`.
pub mod Validate
pub mod Managed
pub mod Plain
use Prim.Native.String.{len, slice}
use clipgauge.Common.{
  ℕ, zero, suc, ◌-◌, ◌+◌, String, Bool, true, false, ◌&&◌, ◌||◌, not, Option, none, some, List, [],
  ◌∷◌, ◌++◌, map, Result, ok, err, ◌>>=◌, ◌>>◌, ltb, ◌==◌, ◌=s=◌, if◌then◌else◌,
}
use clipgauge.Json.{
  Value, null, bool, num, number, str, arr, obj, Items, nil, cons, Fields, end, field, get, put,
  as_text, as_object, is_text, is_num,
}

pub record PathOps : Type 0 where
  pub is_absolute : String → Bool
  pub has_parent_part : String → Bool  -- `".." in Path(p).parts`
  pub join : String → String → String  -- `job_dir / p`
  pub relative_to : String → String → Option String  -- below the root, in POSIX form
  pub media_type : String → String  -- `mimetypes.guess_type(name)[0] or "application/octet-stream"`
  pub is_media : String → Bool  -- `startswith(("audio/", "video/"))`
  pub sha256 : List ℕ → String
  pub join_dots : List String → String  -- `".".join(parts)`
  pub split_dots : String → List String  -- `role.split(".")`
  pub index_text : ℕ → String  -- `str(index)`
  pub index_of : String → Option ℕ  -- `int(head)` where `head.isdigit()`
  pub equal : Value → Value → Bool  -- `==`

pub record FileSystem : Type 0 where
  pub resolve : String → Option String  -- `resolve(strict=True)`
  pub is_symlink : String → Bool
  pub is_file : String → Bool
  pub readable : String → Bool
  pub size : String → ℕ
  pub mtime : String → ℕ
  pub content : String → List ℕ

-- The codes of `ArtifactError`; and `uncaught` for an AttributeError or a TypeError, which no caller
-- expects.
pub data Code : Type 0 where
  checkpoint_corrupt checkpoint_malformed checkpoint_dependency_stale checkpoint_stage_mismatch
        checkpoint_schema_mismatch checkpoint_descriptor_missing checkpoint_descriptor_mismatch
        artifact_missing artifact_outside_managed_root artifact_symlink_rejected artifact_wrong_type
        artifact_unreadable artifact_descriptor_stale artifact_path_invalid artifact_stale
        artifact_hash_invalid artifact_hash_mismatch artifact_manifest_invalid
        artifact_manifest_stale artifact_manifest_mismatch uncaught :
      Code

abbrev pub descriptor_schema_version : ℕ
descriptor_schema_version = 1

abbrev pub small_hash_limit : ℕ
small_hash_limit = 8388608

abbrev pub sample_bytes : ℕ
sample_bytes = 1048576

abbrev ends_with : String → String → Bool
ends_with s t = slice s (len s - len t) (len s) =s= t

unfoldable pub is_path_key : String → Bool
is_path_key k =
    k =s= "path"
    || k =s= "media_path"
    || k =s= "audio_path"
    || k =s= "curves_path"
    || k =s= "ass"
    || ends_with k "_path"

-- The last MiB of a file, or all of a shorter one.
unfoldable pub drop {ℓ} : {A : Type ℓ} → ℕ → List A → List A
drop zero xs = xs
drop (suc n) [] = []
drop (suc n) (x ∷ xs) = drop n xs

unfoldable pub take {ℓ} : {A : Type ℓ} → ℕ → List A → List A
take zero xs = []
take (suc n) [] = []
take (suc n) (x ∷ xs) = x ∷ take n xs

-- What `_digest` feeds the hash.
digest_input : List ℕ → ℕ → Bool → List ℕ
unfolding take drop
digest_input bytes size false = bytes
digest_input bytes size true =
    take sample_bytes bytes
    ++ (if ltb sample_bytes size then take sample_bytes (drop (size - sample_bytes) bytes) else [])

-- Every file that a value refers to, with its role: the keys on the way, joined by dots.
module _ (ops : PathOps) where
  unfoldable mutual
    unfolding is_path_key

    pub iter_paths : List String → Value → List (String × String)
    iter_paths prefix (obj fs) = iter_fields prefix fs
    iter_paths prefix (arr xs) = iter_items prefix 0 xs
    iter_paths prefix _ = []

    pub iter_fields : List String → Fields → List (String × String)
    iter_fields prefix end = []
    iter_fields prefix (field k (str s) fs) =
        let rest = iter_fields prefix fs in
        if is_path_key k then (ops.join_dots (prefix ++ k ∷ []), s) ∷ rest else rest
    iter_fields prefix (field k v fs) = iter_paths (prefix ++ k ∷ []) v ++ iter_fields prefix fs

    pub iter_items : List String → ℕ → Items → List (String × String)
    iter_items prefix i nil = []
    iter_items prefix i (cons v xs) =
        iter_paths (prefix ++ ops.index_text i ∷ []) v ++ iter_items prefix (suc i) xs

  -- One item of a list changed.
  abbrev change_item : ℕ → (Value → Value) → Items → Items
  change_item i f nil = nil
  change_item zero f (cons v xs) = cons (f v) xs
  change_item (suc i) f (cons v xs) = cons v (change_item i f xs)

  abbrev change_index : Option ℕ → (Value → Value) → Items → Items
  change_index none f xs = xs
  change_index (some i) f xs = change_item i f xs

  abbrev change_key : Option Value → String → (Value → Value) → Fields → Fields
  change_key none k f fs = fs
  change_key (some v) k f fs = put fs k (f v)

  -- The value that stands at the end of the path is replaced; a path that leads nowhere changes
  -- nothing.
  unfoldable pub replace_at : List String → String → Value → Value
  replace_at [] text v = str text
  replace_at (head ∷ tail) text (obj fs) =
      obj (change_key (get fs head) head (replace_at tail text) fs)
  replace_at (head ∷ tail) text (arr xs) =
      arr (change_index (ops.index_of head) (replace_at tail text) xs)
  replace_at (head ∷ tail) text v = v

  unfoldable pub replace_path : Value → List String → String → Value
  unfolding replace_at
  replace_path v [] text = v
  replace_path v (head ∷ tail) text = replace_at (head ∷ tail) text v

pub record Descriptor : Type 0 where
  pub relative_path : String
  pub producer_stage : String
  pub producer_version : String
  pub size : ℕ
  pub updated_at : ℕ
  pub media_type : String
  pub role : String
  pub sampled : Bool
  pub integrity_hash : String

abbrev pub algorithm : Bool → String
algorithm true = "sha256-sampled"
algorithm false = "sha256"

abbrev pub descriptor_json : Descriptor → Value
descriptor_json d = obj (
    field "schema_version" (num descriptor_schema_version) (
      field "relative_path" (str d.relative_path) (
        field "producer_stage" (str d.producer_stage) (
          field "producer_version" (str d.producer_version) (
            field "size" (num d.size) (
              field "updated_at" (num d.updated_at) (
                field "media_type" (str d.media_type) (
                  field "role" (str d.role) (
                    field "hash_algorithm" (str (algorithm d.sampled))
                      (field "integrity_hash" (str d.integrity_hash) end))))))))))

unfoldable pub descriptors_json : List Descriptor → Items
descriptors_json [] = nil
descriptors_json (d ∷ ds) = cons (descriptor_json d) (descriptors_json ds)

abbrev pub Raises : Type 0 → Type 0
Raises A = Result Code A

abbrev pub guard : Bool → Code → Raises (Unit {0})
guard true c = ok tt
guard false c = err c

abbrev present : Option String → Code → Raises String
present none c = err c
present (some s) c = ok s

-- The job directory, the path operations and the version that producers record.
pub record Site : Type 0 where
  pub ops : PathOps
  pub root : String  -- the job directory, resolved
  pub version : String

module _ (site : Site) where
  open site use {ops, root, version}

  -- The resolved file and its path below the root.
  unfoldable pub managed_file : FileSystem → String → Raises (String × String)
  managed_file fs value = do
    let candidate = if ops.is_absolute value then value else ops.join root value
    resolved ← present (fs.resolve candidate) artifact_missing
    relative ← present (ops.relative_to root resolved) artifact_outside_managed_root
    guard (not (fs.is_symlink candidate)) artifact_symlink_rejected
    guard (fs.is_file resolved) artifact_wrong_type
    guard (fs.readable resolved) artifact_unreadable
    ok (resolved, relative)

  unfoldable pub digest : FileSystem → String → ℕ → Bool → String
  unfolding digest_input
  digest fs path size sampled = ops.sha256 (digest_input (fs.content path) size sampled)

  describe : FileSystem → String → String → String × String → Descriptor
  unfolding digest
  describe fs role stage (path, relative) =
      let media_type = ops.media_type path in
      let sampled = ltb small_hash_limit (fs.size path) && ops.is_media media_type in
      record {
        relative_path = relative;
        producer_stage = stage;
        producer_version = version;
        size = fs.size path;
        updated_at = fs.mtime path;
        media_type = media_type;
        role = role;
        sampled = sampled;
        integrity_hash = digest fs path (fs.size path) sampled;
      }

  unfoldable pub descriptor : FileSystem → String → String → String → Raises Descriptor
  unfolding managed_file describe
  descriptor fs value role stage = do file ← managed_file fs value; ok (describe fs role stage file)

  -- `(relative_path, role) in seen`
  unfoldable pub seen_pair : String → String → List (String × String) → Bool
  seen_pair path role [] = false
  seen_pair path role ((p, r) ∷ seen) = (p =s= path && r =s= role) || seen_pair path role seen

  prepare_loop :
      FileSystem
      → String
      → List (String × String)
      → List (String × String)
      → Value
      → List Descriptor
      → Raises (Value × List Descriptor)
  unfolding descriptor seen_pair replace_path
  prepare_loop fs stage [] seen copied out = ok (copied, out)
  prepare_loop fs stage ((role, value) ∷ rest) seen copied out = do
    d ← descriptor fs value role stage
    elim (seen_pair d.relative_path role seen) [
      | true ↦ prepare_loop fs stage rest seen copied out
      | false ↦
          prepare_loop fs stage rest ((d.relative_path, role) ∷ seen)
            (replace_path ops copied (ops.split_dots role) d.relative_path) (out ++ d ∷ [])
    ]

  unfoldable pub prepare : FileSystem → Value → String → Raises (Value × List Descriptor)
  unfolding prepare_loop iter_paths
  prepare fs v stage = prepare_loop fs stage (iter_paths ops [] v) [] v []

  -- The code walks the value while it expands it. Each expansion writes at the role of the text just
  -- visited, so for keys without dots the walk sees the paths of the value that it began with.
  restore_loop : FileSystem → List (String × String) → Value → Raises Value
  unfolding managed_file replace_path
  restore_loop fs [] v = ok v
  restore_loop fs ((role, value) ∷ rest) v = do
    file ← managed_file fs value
    restore_loop fs rest (replace_path ops v (ops.split_dots role) file.0)

  unfoldable pub restore : FileSystem → Value → Raises Value
  unfolding restore_loop iter_paths
  restore fs v = restore_loop fs (iter_paths ops [] v) v
