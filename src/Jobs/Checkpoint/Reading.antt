-- ===== src/Jobs/Checkpoint/Reading.antt =====
-- When a checkpoint is reused (`read_checkpoint_detailed` of
-- pipeline/clipgauge_pipeline/jobs/queue.py).
use clipgauge.Common.{ℕ, String, ◌≡◌, refl, some, arith, eq_iff, ok, err}
use clipgauge.Json.{Value, str, obj, Fields, get}
use clipgauge.Jobs.Artifacts.{FileSystem, Site, Raises, Code}
use clipgauge.Jobs.Artifacts.Validate.{validate}
use clipgauge.Jobs.Artifacts.Validate.Sound.{is_text-some, IsValid, validate-IsValid}
use clipgauge.Jobs.Checkpoint.{
  Files, Stored, missing, corrupt, undecodable, parsed, reusable, on_error, readable_value,
  read_envelope, read_checkpoint_detailed,
}

module _ (site : Site) (fs : FileSystem) (files : Files) (stage : String) (version : ℕ) where
  -- The envelope that was read, and what was checked of it.
  pub record IsReused (expected : String) (v : Value) : Type 0 where
    pub envelope : Fields
    pub stored : files.checkpoint stage ≡ parsed (obj envelope)
    pub valid : IsValid site fs (readable_value files.manifest) envelope stage version v
    pub passed : validate site fs (readable_value files.manifest) envelope stage version ≡ ok v
    pub same_dependency : get envelope "dependency_fingerprint" ≡ some (str expected)

  never : {v : Value} (c : Code) → on_error c ≡ reusable v → ⊥
  never Code.uncaught h = cc
  never _ h = cc

  -- `validate` passes exactly if the envelope is read.
  read_envelope-reusable :
      (e : Fields) (expected : String) (v : Value)
      → read_envelope site fs files e stage version (some expected) ≡ reusable v
      → (validate site fs (readable_value files.manifest) e stage version ≡ ok v)
        × (get e "dependency_fingerprint" ≡ some (str expected))
  unfolding read_envelope
  read_envelope-reusable e expected v h =
      by_result (validate site fs (readable_value files.manifest) e stage version) refl
    where
      by_result :
          (r : Raises Value)
          → validate site fs (readable_value files.manifest) e stage version ≡ r
          → (validate site fs (readable_value files.manifest) e stage version ≡ ok v)
            × (get e "dependency_fingerprint" ≡ some (str expected))
      by_result (ok w) eq =
          (ground (arith), is_text-some (get e "dependency_fingerprint") expected (ground arith))
      by_result (err c) eq = absurd (never {v = v} c (ground arith))

  pub read_checkpoint-found :
      (e : Fields) (expected : String) (v : Value)
      → files.checkpoint stage ≡ parsed (obj e)
      → validate site fs (readable_value files.manifest) e stage version ≡ ok v
      → get e "dependency_fingerprint" ≡ some (str expected)
      → read_checkpoint_detailed site fs files stage version (some expected) ≡ reusable v
  unfolding read_checkpoint_detailed
  read_checkpoint-found e expected v found valid named =
      ground (arith, found, valid, named, eq_iff expected expected)

  -- A checkpoint is reused only if its stage, its schema version and its dependency fingerprint are
  -- those asked for, if every artifact that it lists is a managed file with the size, the time and,
  -- under the hash policy that it names, the hash described, and if the manifest has an entry for the
  -- stage with the schema version and with artifacts equal to those listed.
  pub read_checkpoint-IsReused :
      (expected : String) (v : Value)
      → read_checkpoint_detailed site fs files stage version (some expected) ≡ reusable v
      → IsReused expected v
  unfolding read_checkpoint_detailed
  read_checkpoint-IsReused expected v h = by_file (files.checkpoint stage) refl
    where
      by_file : (found : Stored) → files.checkpoint stage ≡ found → IsReused expected v
      by_file (parsed (obj e)) eq =
          let (checked, same) = read_envelope-reusable e expected v (ground arith) in
          record {
            envelope = e;
            stored = eq;
            valid =
                validate-IsValid site fs (readable_value files.manifest) e stage version v checked;
            passed = checked;
            same_dependency = same;
          }
      by_file missing eq = absurd (ground arith)
      by_file corrupt eq = absurd (ground arith)
      by_file undecodable eq = absurd (ground arith)
      by_file (parsed _) eq = absurd (ground arith)
