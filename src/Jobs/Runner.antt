-- ===== src/Jobs/Runner.antt =====
-- The stage runner of pipeline/clipgauge_pipeline/jobs/queue.py (`run_stages`,
-- `cached_prefix_ready`). The stages themselves are an interface; what the runner observes of the
-- outside at each stage (the cancel file, the disk, the clock) comes with the stage. The code's
-- `progress` callbacks only report and are left out.
pub mod Timing
pub mod Status
pub mod Cache
pub mod Order
pub mod Gate
use Prim.Native.String.{◌++◌ as ◌+s◌}
use mathlib.Core.Option
use clipgauge.Common.{
  ℕ, String, Bool, true, false, ◌&&◌, ◌||◌, not, Option, none, some, List, [], ◌∷◌, ◌++◌, map,
  Result, ok, err, ◌=s=◌, if◌then◌else◌, ◌-◌,
}
use clipgauge.Json.{
  Value, null, bool, num, number, str, arr, obj, Items, nil, cons, append_item, Fields, end, field,
  get, put, without, as_text, as_object, is_text,
}
use clipgauge.Disk.Estimate.{Estimate, empty_estimate, or_else}
use clipgauge.Disk.Guard.{
  Source, estimated, local_file, remote, DiskDecision, disk_headroom_decision, active_stage,
  ActiveStage, asr, render,
}
use clipgauge.Jobs.Store.{
  Db, Job, JobStatus, running, done, failed, set_job_status, mark_stage, finish_run, RunStatus,
  run_running, run_failed,
}
use clipgauge.Jobs.Artifacts.{Site, FileSystem, Code}
use clipgauge.Jobs.Checkpoint.{
  Files, Stored, missing, corrupt, undecodable, parsed, Hashing, SourceStat, Results, result_of,
  set_result, dependency_fingerprint, dependency_settings, with_checkpoint_metadata,
  read_checkpoint_detailed, write_checkpoint, Cached, reusable, absent, unusable, escapes,
}

-- How `stage.run` ends.
pub data Ran : Type 0 where
  returned : Fields → Ran
  stage_error : (code message : String) → Ran
  exception : (repr : String) → Ran

-- A stage: `run` sees the earlier results and may change the files of the job directory;
-- `artifacts_ok` may raise one of the exceptions that `cached_prefix_ready` names, which is `none`.
pub record Stage : Type 0 where
  pub name : String
  pub schema_version : ℕ
  pub run : FileSystem → Results → Ran × FileSystem
  pub artifacts_ok : FileSystem → Fields → Option Bool
  pub timing_metadata : Fields → Fields

-- What the runner finds outside at the turn of a stage. Times are milliseconds.
pub record Observed : Type 0 where
  pub cancelled : Bool  -- `cancel.requested` exists
  pub stat : Option SourceStat
  pub free : Option ℕ
  pub started_at : ℕ
  pub finished_at : ℕ
  pub active : ℕ
  pub diagnostic_id : String

abbrev pub Turn : Type 0
Turn = Stage × Observed

abbrev is_missing {ℓ} : {A : Type ℓ} → Option A → Bool
is_missing none = true
is_missing (some a) = false

-- What a run has of its own.
pub record Env : Type 0 where
  pub job : Job
  pub settings : Fields
  pub site : Site
  pub hashing : Hashing
  pub source_is_remote : Bool  -- no source, or one that begins with `http://` or `https://`
  pub safe_message : String → String
  pub disk_message : DiskDecision → String
  pub artifact_message : Code → String
  pub int_or_zero : Value → Option ℕ  -- `int(v or 0)`: 0 below 0, `none` where it raises

-- What a run changes.
pub record State : Type 0 where
  pub db : Db
  pub files : Files
  pub fs : FileSystem
  pub timing : Stored  -- `diagnostics/stage-timing.json`
  pub results : Results

pub data Failure : Type 0 where
  unknown_stop_point : Failure
  cancelled_at : String → Failure
  disk_space_low_at : String → DiskDecision → Failure
  stage_failed : (stage code message : String) → Failure
  stage_execution_error : (stage repr : String) → Failure
  artifact_failed : String → Code → Failure
  check_raised read_raised timing_raised estimate_raised : String → Failure

abbrev stages_in : Stored → Items
stages_in (parsed (obj existing)) = elim (get existing "stages") [ some (arr xs) ↦ xs | _ ↦ nil ]
stages_in _ = nil

-- `_append_stage_timing`; `none` is the UnicodeDecodeError of a file that is no UTF-8.
unfoldable pub append_stage_timing : Job → Stored → Fields → Option Stored
append_stage_timing job undecodable row = none
append_stage_timing job existing row = some (
    parsed (
      obj (
        field "schema_version" (num 1) (
          field "job_id" (str job.id)
            (field "stages" (arr (append_item (stages_in existing) (obj row))) end)))))

-- `{**fields, **more}`
unfoldable pub merge : Fields → Fields → Fields
merge fs end = fs
merge fs (field k v more) = merge (put fs k v) more

abbrev pub cached_row : Stage → Fields → Fields
cached_row stage content =
    merge
      (field "name" (str stage.name) (
        field "started_at" null (
          field "finished_at" null
            (field "active_seconds" (num 0) (field "cached" (bool true) end)))))
      (stage.timing_metadata content)

abbrev done_row : Stage → Observed → Fields → Fields
done_row stage o content =
    merge
      (field "name" (str stage.name) (
        field "started_at" (num o.started_at) (
          field "finished_at" (num o.finished_at)
            (field "active_seconds" (num o.active) (field "cached" (bool false) end)))))
      (stage.timing_metadata content)

abbrev pub failed_row : Stage → Observed → Fields
failed_row stage o = field "name" (str stage.name) (
    field "status" (str "failed") (
      field "started_at" (num o.started_at) (
        field "finished_at" (num o.finished_at) (
          field "active_seconds" (num o.active) (
            field "cached" (bool false) (
              field "backend" (str "unknown") (
                field "device" (str "unknown")
                  (field "workload" (obj end) (field "workload_count" null end)))))))))

-- `_positive_number` takes no zero, so that `int(v or 0)` serves for it too.
abbrev num_field : Env → Fields → String → Option ℕ
num_field env fs k = elim (get fs k) [ some v ↦ env.int_or_zero v | none ↦ none ]

-- The stored estimate, as far as the disk check reads it: the duration is only passed on.
abbrev pub estimate_of : Env → Fields → Estimate
estimate_of env fs = record {
  source_bytes = num_field env fs "source_bytes";
  source_copy_bytes = num_field env fs "source_copy_bytes";
  duration_ms = none;
  temporary_audio_bytes = num_field env fs "temporary_audio_bytes";
  checkpoint_bytes = num_field env fs "checkpoint_bytes";
  render_bytes = num_field env fs "render_bytes";
  safety_margin_bytes = num_field env fs "safety_margin_bytes";
  required_bytes = num_field env fs "required_bytes";
  source_size_confidence = as_text (get fs "source_size_confidence");
}

abbrev stored_fields : Option Fields → Option Fields
stored_fields none = none
stored_fields (some ingest) = as_object (get ingest "storage_estimate")

abbrev stored_estimate : Env → Option Fields → Option Estimate
stored_estimate env ingest = Option.map (estimate_of env) (stored_fields ingest)

-- `int(chosen.get("required_bytes") or 0)` raises.
abbrev has_bad_total : Env → Option Fields → Bool
has_bad_total env none = false
has_bad_total env (some e) = elim (get e "required_bytes") [
  | some v ↦ is_missing (env.int_or_zero v)
  | none ↦ false
]

-- `for_stage` passes the total of the estimate on.
abbrev keeps_total : ActiveStage → Bool
keeps_total asr = false
keeps_total render = false
keeps_total _ = true

abbrev stat_size : Option SourceStat → ℕ
stat_size none = 0
stat_size (some st) = st.size

abbrev source_of : Env → Observed → Option Estimate → Source
source_of env o (some e) = estimated e
source_of env o none = if env.source_is_remote then remote else local_file (stat_size o.stat)

unfoldable pub disk_decision : Env → Stage → Observed → Results → DiskDecision
unfolding result_of
disk_decision env stage o results =
    disk_headroom_decision o.free
      (source_of env o (stored_estimate env (result_of results "ingest"))) false
      (some (active_stage stage.name))

-- The disk check raises: the free space is measured, and the total is no number.
unfoldable pub estimate_raises : Env → Stage → Observed → Results → Bool
unfolding result_of
estimate_raises env stage o results =
    not (is_missing o.free)
    && keeps_total (active_stage stage.name)
    && has_bad_total env (stored_fields (result_of results "ingest"))

abbrev pub checks_disk : String → Bool
checks_disk name = name =s= "ingest" || name =s= "asr" || name =s= "render"

abbrev pub no_recommendations : Fields → Bool
no_recommendations content = is_text (get content "outcome") "SUCCESS_NO_RECOMMENDATIONS"

abbrev pub job_status : Env → Db → JobStatus → Option String → Db
job_status env db status error = set_job_status env.safe_message db env.job.id status error none

abbrev pub run_status : Env → Db → Stage → RunStatus → Option String → ℕ → Db
run_status env db stage status error now =
    mark_stage env.safe_message db env.job.id stage.name status stage.schema_version error now

-- How one pass of the loop ends: the next pass, `break`, or an exception.
pub data Next : Type 0 where
  continue : State → Next
  finished : State → Next
  raised : Failure → State → Next

pub data Outcome : Type 0 where
  completed : State → Outcome
  aborted : Failure → State → Outcome

module _ (env : Env) where
  -- A row for the timing file, and what follows.
  abbrev pub logged : Turn → Fields → State → (State → Next) → Next
  logged (stage, o) row s next = elim (append_stage_timing env.job s.timing row) [
    | none ↦ raised (timing_raised stage.name) s
    | some timing ↦ next (record s { timing = timing })
  ]

  -- The three places where a failed stage is recorded, with its row in the timing file.
  abbrev pub fail_stage : Turn → State → String → String → Failure → Next
  fail_stage (stage, o) s run_message job_message f =
      logged (stage, o) (failed_row stage o)
        (record s { db = run_status env s.db stage run_failed (some run_message) o.finished_at })
        λ u. raised f (record u { db = job_status env u.db failed (some job_message) })

  abbrev pub proceed : Fields → State → Next
  proceed content s = if no_recommendations content then finished s else continue s

  unfoldable pub use_cached : Turn → Fields → State → Next
  use_cached (stage, o) content s =
      logged (stage, o) (cached_row stage content)
        (record s { results = set_result s.results stage.name content }) (proceed content)

  abbrev pub with_diagnostic : Observed → Fields → Fields
  with_diagnostic o content =
      if no_recommendations content
      then put content "diagnostic_id" (str o.diagnostic_id)
      else content

  -- What follows `write_checkpoint`.
  abbrev pub stored : Turn → State → Fields → Result Code Files → Next
  stored (stage, o) s output (err c) =
      let message = stage.name +s ": " +s env.artifact_message c in
      fail_stage (stage, o) s message message (artifact_failed stage.name c)
  stored (stage, o) s output (ok files) =
      logged (stage, o) (done_row stage o output)
        (record s {
          files = files;
          db = finish_run s.db env.job.id stage.name stage.schema_version o.finished_at;
          results = set_result s.results stage.name output;
        })
        (proceed output)

  abbrev pub output_of : Turn → String → Fields → Fields
  output_of (stage, o) dependency content =
      with_checkpoint_metadata env.hashing (with_diagnostic o content) dependency

  unfoldable pub store_result : Turn → String → State → Fields → Next
  store_result (stage, o) dependency s content =
      let output = output_of (stage, o) dependency content in
      stored (stage, o) s output
        (write_checkpoint env.site s.fs s.files stage.name stage.schema_version output
          o.finished_at)

  abbrev pub ended : Turn → String → State → Ran → Next
  ended turn dependency s (returned content) = store_result turn dependency s content
  ended (stage, o) dependency s (stage_error code message) =
      fail_stage (stage, o) s message (stage.name +s ": " +s message)
        (stage_failed stage.name code message)
  ended (stage, o) dependency s (exception repr) =
      fail_stage (stage, o) s repr (stage.name +s ": " +s repr)
        (stage_execution_error stage.name repr)

  unfoldable pub execute : Turn → String → State → Next
  unfolding store_result
  execute (stage, o) dependency s =
      let (ran, fs) = stage.run s.fs s.results in
      ended (stage, o) dependency
        (record s { fs = fs; db = run_status env s.db stage run_running none o.started_at }) ran

  unfoldable pub check_disk : Turn → String → State → Next
  unfolding execute disk_decision estimate_raises
  check_disk (stage, o) dependency s =
      let d = disk_decision env stage o s.results in
      let message = env.disk_message d in
      if estimate_raises env stage o s.results
      then raised (estimate_raised stage.name) s
      else if d.blocked && checks_disk stage.name
      then raised (disk_space_low_at stage.name d) (record s {
        db =
            job_status env (run_status env s.db stage run_failed (some message) o.started_at) failed
              (some (stage.name +s ": " +s message));
      })
      else execute (stage, o) dependency s

  abbrev pub checked : Turn → Fields → String → State → Option Bool → Next
  checked turn content dependency s none = raised (check_raised turn.0.name) s
  checked turn content dependency s (some true) = use_cached turn content s
  checked turn content dependency s (some false) = check_disk turn dependency s

  abbrev pub use_or_run : Turn → String → State → Cached → Next
  use_or_run (stage, o) dependency s (reusable (obj content)) =
      checked (stage, o) content dependency s (stage.artifacts_ok s.fs content)
  use_or_run (stage, o) dependency s escapes = raised (read_raised stage.name) s
  use_or_run turn dependency s _ = check_disk turn dependency s

  unfoldable pub dependency_of : Turn → Results → String
  unfolding dependency_fingerprint dependency_settings
  dependency_of (stage, o) results =
      dependency_fingerprint env.hashing env.job o.stat stage.name stage.schema_version
        (dependency_settings stage.name env.settings) results

  unfoldable pub cached_for : Turn → FileSystem → Files → Results → Cached
  unfolding read_checkpoint_detailed
  cached_for (stage, o) fs files results =
      read_checkpoint_detailed env.site fs files stage.name stage.schema_version
        (some (dependency_of (stage, o) results))

  -- The body of the loop.
  unfoldable pub step : Turn → State → Next
  unfolding use_cached check_disk
  step (stage, o) s =
      if o.cancelled
      then raised (cancelled_at stage.name)
          (record s { db = job_status env s.db failed (some "Job cancelled.") })
      else use_or_run (stage, o) (dependency_of (stage, o) s.results) s
          (cached_for (stage, o) s.fs s.files s.results)

  abbrev pub complete : State → Outcome
  complete s = completed (record s { db = job_status env s.db done none })

  -- `continue`, `break` and the end of the loop, `raise`.
  abbrev pub after : (State → Outcome) → Next → Outcome
  after rest (continue s) = rest s
  after rest (finished s) = complete s
  after rest (raised f s) = aborted f s

  unfoldable pub run_loop : List Turn → State → Outcome
  run_loop [] s = complete s
  run_loop (t ∷ ts) s = after (run_loop ts) (step t s)

  -- The stages up to the one named, if it is there.
  unfoldable pub through : String → List Turn → Option (List Turn)
  through stop [] = none
  through stop (t ∷ ts) =
      let rest = through stop ts in
      if t.0.name =s= stop
      then some (t ∷ [])
      else elim rest [ some us ↦ some (t ∷ us) | none ↦ none ]

  abbrev pub selected : Option String → List Turn → Option (List Turn)
  selected none turns = some turns
  selected (some stop) turns = through stop turns

  abbrev pub start : Option (List Turn) → State → Outcome
  start none s = aborted unknown_stop_point s
  start (some chosen) s =
      run_loop chosen (record s { db = job_status env s.db running none; results = [] })

  unfoldable pub run_stages : Option String → List Turn → State → Outcome
  unfolding run_loop through
  run_stages stop_after turns s = start (selected stop_after turns) s

  -- What the caller is given: the results without the checkpoint's own key.
  unfoldable pub returned_results : Results → Results
  returned_results [] = []
  returned_results ((k, content) ∷ rs) = (k, without content "_checkpoint") ∷ returned_results rs

  -- `none` is an exception.
  prefix_from : FileSystem → Files → List Turn → Results → Option Bool
  unfolding cached_for set_result
  prefix_from fs files [] results = some true
  prefix_from fs files (t ∷ ts) results = elim (cached_for t fs files results) [
    | reusable (obj content) ↦ elim (t.0.artifacts_ok fs content) [
      | some true ↦ prefix_from fs files ts (set_result results t.0.name content)
      | _ ↦ some false
    ]
    | escapes ↦ none
    | _ ↦ some false
  ]

  -- `cached_prefix_ready`, for settings that can be read.
  unfoldable pub cached_prefix_ready : String → List Turn → State → Option Bool
  unfolding prefix_from through
  cached_prefix_ready stop turns s = elim (through stop turns) [
    | none ↦ some false
    | some chosen ↦ prefix_from s.fs s.files chosen []
  ]
