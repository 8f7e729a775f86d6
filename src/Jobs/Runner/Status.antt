-- ===== src/Jobs/Runner/Status.antt =====
-- The status of the job in the database after `run_stages`
-- (pipeline/clipgauge_pipeline/jobs/queue.py).
use mathlib.Core.Option
use clipgauge.Common.{◌≡◌, Option, some}
use clipgauge.Jobs.Store.{Db, JobStatus, running, done, failed, get_job}
use clipgauge.Jobs.Runner.{
  Env, State, Next, continue, finished, raised, Outcome, completed, aborted, Failure,
  unknown_stop_point, check_raised, read_raised, timing_raised, estimate_raised,
}

-- The status column of the run's job.
abbrev pub status_of : Env → State → Option JobStatus
status_of env s = Option.map (λ j. j.status) (get_job s.db env.job.id)

-- What the code leaves in that column when it raises.
abbrev pub left_by : Failure → JobStatus
left_by (check_raised _) = running
left_by (read_raised _) = running
left_by (timing_raised _) = running
left_by (estimate_raised _) = running
left_by _ = failed

module _ (env : Env) where
  -- After one pass of the loop the job is running, or has failed.
  abbrev Settled : Next → Type 0
  Settled (continue s) = status_of env s ≡ some running
  Settled (finished s) = status_of env s ≡ some running
  Settled (raised unknown_stop_point s) = ⊥
  Settled (raised f s) = status_of env s ≡ some (left_by f)

  -- After the run, the column says how it ended.
  abbrev pub AgreesWith : State → Outcome → Type 0
  AgreesWith s (completed s') = status_of env s' ≡ some done
  AgreesWith s (aborted unknown_stop_point s') = s' ≡ s
  AgreesWith s (aborted f s') = status_of env s' ≡ some (left_by f)

  abbrev IsAt : Db → JobStatus → Type 0
  IsAt db st = Option.map (λ j. j.status) (get_job db env.job.id) ≡ some st
