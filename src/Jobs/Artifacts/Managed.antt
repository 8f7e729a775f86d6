-- ===== src/Jobs/Artifacts/Managed.antt =====
-- What a file must be for a checkpoint to refer to it
-- (pipeline/clipgauge_pipeline/jobs/artifacts.py, `_managed_file`).
use clipgauge.Common.{String, ◌≡◌, true, false, some, ◌↔◌, arith, ok, if◌then◌else◌}
use clipgauge.Jobs.Artifacts.{FileSystem, Site, managed_file}

-- A regular, readable file that stands below the job directory, named by a path that is itself no
-- symbolic link.
pub record IsManaged (site : Site) (fs : FileSystem) (value resolved relative : String)
    : Type 0 where
  pub found :
      fs.resolve (if site.ops.is_absolute value then value else site.ops.join site.root value)
      ≡ some resolved
  pub below_root : site.ops.relative_to site.root resolved ≡ some relative
  pub no_symlink :
      fs.is_symlink (if site.ops.is_absolute value then value else site.ops.join site.root value)
      ≡ false
  pub regular : fs.is_file resolved ≡ true
  pub readable : fs.readable resolved ≡ true

-- A path is accepted, with the file that it names, exactly if that file is managed.
pub managed_file_iff :
    (site : Site) (fs : FileSystem) (value resolved relative : String)
    → (managed_file site fs value ≡ ok (resolved, relative))
      ↔ IsManaged site fs value resolved relative
unfolding managed_file
managed_file_iff site fs value resolved relative = (λ h. ground arith, λ m. ground arith)
