-- ===== src/Jobs/Checkpoint/Writing.antt =====
-- What `write_checkpoint` leaves for later reads (pipeline/clipgauge_pipeline/jobs/queue.py).
use clipgauge.Common.{
  ℕ, String, ◌≡◌, refl, sym, subst, true, false, some, arith, eq_iff, eq_refl, ok, err, List, [],
  ◌=s=◌,
}
use clipgauge.Json.{Value, str, obj, Fields, get}
use clipgauge.Jobs.Artifacts.{
  FileSystem, Site, Raises, Descriptor, prepare, iter_paths, descriptors_json,
}
use clipgauge.Jobs.Artifacts.Validate.{validate, update_manifest}
use clipgauge.Jobs.Artifacts.Validate.Manifest.{
  check_manifest-update_self, check_manifest-update_other,
}
use clipgauge.Jobs.Artifacts.Plain.{prepare-plain, restore-plain}
use clipgauge.Jobs.Artifacts.Validate.Sound.{validate-other_manifest}
use clipgauge.Jobs.Checkpoint.Reading.{read_checkpoint-IsReused, read_checkpoint-found}
use clipgauge.Jobs.Checkpoint.{
  Files, parsed, reusable, readable_value, meta, read_checkpoint_detailed, write_checkpoint,
  envelope, set_checkpoint,
}

-- The files after a write, from what was prepared.
abbrev pub written : Site → Files → String → ℕ → Fields → ℕ → Value × List Descriptor → Files
written site files stage version content now prepared = record {
  checkpoint =
      set_checkpoint files.checkpoint stage
        (parsed (obj (envelope stage version now content prepared.0 prepared.1)));
  manifest =
      parsed
        (obj (update_manifest site (readable_value files.manifest) stage version prepared.1 now));
}

module _ (site : Site) (fs : FileSystem) (files : Files) (stage : String) (version : ℕ)
    (content : Fields) (now : ℕ) where
  write_checkpoint-written :
      {files' : Files}
      → write_checkpoint site fs files stage version content now ≡ ok files'
      → (p : Value × List Descriptor) × (prepare site fs (obj content) stage ≡ ok p)
        × (files' ≡ written site files stage version content now p)
  unfolding write_checkpoint
  write_checkpoint-written {files'} h = by_prepared (prepare site fs (obj content) stage) refl
    where
      by_prepared :
          (r : Raises (Value × List Descriptor))
          → prepare site fs (obj content) stage ≡ r
          → (p : Value × List Descriptor) × (prepare site fs (obj content) stage ≡ ok p)
            × (files' ≡ written site files stage version content now p)
      by_prepared (ok p) e = (p, e, ground arith)
      by_prepared (err c) e = absurd (ground arith)

  -- A write for one stage leaves the reusable checkpoint of every other stage reusable, with the
  -- same data.
  pub read_checkpoint-write_other :
      (files' : Files) (other : String) (version' : ℕ) (dependency : String) (v : Value)
      → (stage =s= other) ≡ false
      → write_checkpoint site fs files stage version content now ≡ ok files'
      → read_checkpoint_detailed site fs files other version' (some dependency) ≡ reusable v
      → read_checkpoint_detailed site fs files' other version' (some dependency) ≡ reusable v
  read_checkpoint-write_other files' other version' dependency v apart w h =
      let (p, _, is_written) = write_checkpoint-written w in
      let old = read_checkpoint-IsReused site fs files other version' dependency v h in
      subst (λ f. read_checkpoint_detailed site fs f other version' (some dependency) ≡ reusable v)
        (sym is_written)
        (read_checkpoint-found site fs (written site files stage version content now p) other
          version' old.envelope dependency v (rw apart old.stored)
          (validate-other_manifest site fs (readable_value files.manifest) _ old.envelope other
            version' v
            (λ ds.
              check_manifest-update_other site (readable_value files.manifest) stage version p.1 now
                other version' ds apart)
            old.passed)
          old.same_dependency)

  abbrev plain_envelope : Fields
  plain_envelope = envelope stage version now content (obj content) []

  module _ (same : (v : Value) → site.ops.equal v v ≡ true)
      (plain : iter_paths site.ops [] (obj content) ≡ []) where
    validate-plain :
        validate site fs
          (some (obj (update_manifest site (readable_value files.manifest) stage version [] now)))
          plain_envelope
          stage
          version
        ≡ ok (obj content)
    unfolding validate envelope get descriptors_json
    validate-plain = ground (
      arith,
      eq_iff stage stage,
      prepare-plain site fs (obj content) plain stage,
      restore-plain site fs (obj content) plain,
      check_manifest-update_self site (readable_value files.manifest) stage version [] now same,
    )

    plain_dependency :
        (dependency : String)
        → meta content "dependency_fingerprint" ≡ some (str dependency)
        → get plain_envelope "dependency_fingerprint" ≡ some (str dependency)
    unfolding envelope get
    plain_dependency dependency named = ground arith

    -- Data that refers to no file is stored, and read back as it was.
    pub read_checkpoint-write_checkpoint :
        (dependency : String)
        → meta content "dependency_fingerprint" ≡ some (str dependency)
        → (files' : Files) × (write_checkpoint site fs files stage version content now ≡ ok files')
          × (read_checkpoint_detailed site fs files' stage version (some dependency)
              ≡ reusable (obj content))
    unfolding write_checkpoint
    read_checkpoint-write_checkpoint dependency named = (
      written site files stage version content now (obj content, []),
      rw (prepare-plain site fs (obj content) plain stage) refl,
      read_checkpoint-found site fs (written site files stage version content now (obj content, []))
          stage version plain_envelope dependency (obj content) (rw (eq_refl stage) refl)
          validate-plain (plain_dependency dependency named),
    )
