-- ===== src/Jobs/Runner/Timing.antt =====
-- A row for the timing file (`_append_stage_timing` of pipeline/clipgauge_pipeline/jobs/queue.py).
use clipgauge.Common.{String, ◌≡◌, refl, Option, none, some}
use clipgauge.Json.{Fields}
use clipgauge.Jobs.Store.{Job, failed, run_failed}
use clipgauge.Jobs.Checkpoint.{Stored, missing, corrupt, undecodable, parsed}
use clipgauge.Jobs.Runner.{
  Env, State, Turn, Next, raised, Failure, timing_raised, append_stage_timing, logged, fail_stage,
  failed_row, run_status, job_status,
}

-- The file is UTF-8, or is not there.
abbrev pub IsDecodable : Stored → Type 0
IsDecodable undecodable = ⊥
IsDecodable _ = Unit

pub append-IsDecodable :
    (job : Job) (existing : Stored) (row : Fields)
    → IsDecodable existing
    → (t : Stored) × (append_stage_timing job existing row ≡ some t) × IsDecodable t
unfolding append_stage_timing
append-IsDecodable job missing row h = (_, refl, tt)
append-IsDecodable job corrupt row h = (_, refl, tt)
append-IsDecodable job (parsed v) row h = (_, refl, tt)
append-IsDecodable job undecodable row h = absurd h

-- The row is written and the pass goes on, or the exception of the file leaves it.
pub logged_ind :
    (env : Env) (P : Next → Type 0) (t : Turn) (row : Fields) (s : State) (next : State → Next)
    → P (raised (timing_raised t.0.name) s)
    → ((timing : Stored) → P (next (record s { timing = timing })))
    → P (logged env t row s next)
logged_ind env P t row s next stop go = by_result (append_stage_timing env.job s.timing row)
  where
    by_result :
        (r : Option Stored)
        → P (elim r [
          | none ↦ raised (timing_raised t.0.name) s
          | some timing ↦ next (record s { timing = timing })
        ])
    by_result none = stop
    by_result (some timing) = go timing

pub logged-some :
    (env : Env) (t : Turn) (row : Fields) (s : State) (next : State → Next) (timing : Stored)
    → append_stage_timing env.job s.timing row ≡ some timing
    → logged env t row s next ≡ next (record s { timing = timing })
logged-some env t row s next timing e = rw (logged, e) refl

-- A failed stage: the file raises, or the job is marked as failed.
pub fail_stage_ind :
    (env : Env) (P : Next → Type 0) (t : Turn) (s : State) (run_message job_message : String)
    (f : Failure)
    → let db = run_status env s.db t.0 run_failed (some run_message) t.1.finished_at in
      P (raised (timing_raised t.0.name) (record s { db = db }))
      → ((u : State) → u.db ≡ job_status env db failed (some job_message) → P (raised f u))
      → P (fail_stage env t s run_message job_message f)
fail_stage_ind env P (stage, o) s run_message job_message f stop go =
    let db = run_status env s.db stage run_failed (some run_message) o.finished_at in
    logged_ind env P (stage, o) (failed_row stage o) (record s { db = db })
      (λ u. raised f (record u { db = job_status env u.db failed (some job_message) })) stop
      (λ timing.
        go (record s { db = job_status env db failed (some job_message); timing = timing }) refl)
