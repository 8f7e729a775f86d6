-- ===== src/Jobs/Runner/Gate.antt =====
-- The disk check before a stage (pipeline/clipgauge_pipeline/jobs/queue.py and resource_guard.py).
use clipgauge.Common.{
  ℕ, ◌<◌, ◌≤◌, String, ◌≡◌, refl, ap, Bool, true, false, Option, none, some, arith, if◌then◌else◌,
}
use clipgauge.Json.{obj, Fields}
use clipgauge.Disk.Estimate.{min_safe_bytes}
use clipgauge.Disk.Guard.{Source, ActiveStage, required_for, disk_headroom_decision}
use clipgauge.Jobs.Store.{failed}
use clipgauge.Jobs.Artifacts.{FileSystem}
use clipgauge.Jobs.Checkpoint.{Cached, Results, reusable, escapes}
use clipgauge.Jobs.Runner.{
  Env, State, Stage, Observed, Ran, use_cached, checked, use_or_run, check_disk, step, checks_disk,
  disk_decision, raised, cancelled_at, job_status, dependency_of, cached_for,
}

required_for-ge :
    (source : Source) (stage : Option ActiveStage)
    → min_safe_bytes ≤ required_for false stage source
unfolding required_for
required_for-ge source stage = omega arith

disk_headroom-blocked :
    (free : ℕ) (source : Source) (stage : Option ActiveStage)
    → free < min_safe_bytes
    → (disk_headroom_decision (some free) source false stage).blocked ≡ true
unfolding disk_headroom_decision
disk_headroom-blocked free source stage h = ground (arith, required_for-ge source stage)

module _ (env : Env) (stage : Stage) (o : Observed) (free : ℕ)
    (run : FileSystem → Results → Ran × FileSystem) (measured : o.free ≡ some free)
    (low : free < min_safe_bytes) (guarded : checks_disk stage.name ≡ true) where
  abbrev other : Stage
  other = record stage { run = run }

  blocked : (results : Results) → (disk_decision env stage o results).blocked ≡ true
  unfolding disk_decision
  blocked results = rw measured (disk_headroom-blocked free _ _ low)

  check_disk-other :
      (dependency : String) (s : State)
      → check_disk env (stage, o) dependency s ≡ check_disk env (other, o) dependency s
  unfolding check_disk
  check_disk-other dependency s = rw (blocked s.results) (rw guarded refl)

  checked-other :
      (content : Fields) (dependency : String) (s : State) (answer : Option Bool)
      → checked env (stage, o) content dependency s answer
        ≡ (checked env (other, o) content dependency s answer)
  unfolding use_cached
  checked-other content dependency s none = refl
  checked-other content dependency s (some true) = refl
  checked-other content dependency s (some false) = check_disk-other dependency s

  use_or_run-other :
      (dependency : String) (s : State) (c : Cached)
      → use_or_run env (stage, o) dependency s c ≡ use_or_run env (other, o) dependency s c
  unfolding use_cached
  use_or_run-other dependency s (reusable (obj content)) =
      checked-other content dependency s (stage.artifacts_ok s.fs content)
  use_or_run-other dependency s escapes = refl
  use_or_run-other dependency s _ = check_disk-other dependency s

  -- While less than the general minimum of space is free, a pass over `ingest`, `asr` or `render`
  -- does the same whatever the stage itself would do: the stage is not run.
  pub low_disk_never_runs : (s : State) → step env (stage, o) s ≡ step env (other, o) s
  unfolding step cached_for dependency_of
  low_disk_never_runs s =
      ap
        (λ n.
          if o.cancelled
          then raised (cancelled_at stage.name)
              (record s { db = job_status env s.db failed (some "Job cancelled.") })
          else n)
        (use_or_run-other (dependency_of env (stage, o) s.results) s
          (cached_for env (stage, o) s.fs s.files s.results))
