-- ===== src/Jobs/Artifacts/Plain.antt =====
-- Values that refer to no file (pipeline/clipgauge_pipeline/jobs/artifacts.py).
use clipgauge.Common.{String, ◌≡◌, refl, ok, []}
use clipgauge.Json.{Value}
use clipgauge.Jobs.Artifacts.{FileSystem, Site, iter_paths, prepare, restore}

module _ (site : Site) (fs : FileSystem) (v : Value) (plain : iter_paths site.ops [] v ≡ []) where
  pub prepare-plain : (stage : String) → prepare site fs v stage ≡ ok (v, [])
  unfolding prepare
  prepare-plain stage = rw (plain, prepare) refl

  pub restore-plain : restore site fs v ≡ ok v
  unfolding restore
  restore-plain = rw (plain, restore) refl
