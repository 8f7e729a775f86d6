-- ===== src/Jobs/Store.antt =====
-- The SQLite job store of pipeline/clipgauge_pipeline/jobs/queue.py: its two tables, and the
-- statements that read and write them. A time is the number that `time.time()` gave.
pub mod Rows
pub mod Lifecycle
use clipgauge.Common.{
  ℕ, String, Bool, true, false, ◌&&◌, Option, none, some, List, [], ◌∷◌, ◌++◌, map, ◌=s=◌,
  if◌then◌else◌,
}

pub data JobStatus : Type 0 where
  pending running done failed : JobStatus

pub data RunStatus : Type 0 where
  run_running run_done run_failed : RunStatus

pub data SourceType : Type 0 where
  url file other_source : SourceType

pub record Job : Type 0 where
  pub id : String
  pub created_at : ℕ
  pub source_type : SourceType
  pub source : String
  pub title : Option String
  pub status : JobStatus
  pub error : Option String
  pub settings_json : String
  pub input_json : Option String

pub record StageRun : Type 0 where
  pub job_id : String
  pub stage : String
  pub status : RunStatus
  pub schema_version : ℕ
  pub started_at : ℕ
  pub finished_at : Option ℕ
  pub error : Option String

pub record Db : Type 0 where
  pub jobs : List Job
  pub stage_runs : List StageRun

-- `SELECT * FROM jobs WHERE id = ?`
find_job : String → List Job → Option Job
find_job k [] = none
find_job k (j ∷ js) = if j.id =s= k then some j else find_job k js

unfoldable pub get_job : Db → String → Option Job
unfolding find_job
get_job db k = find_job k db.jobs

abbrev is_source_type : SourceType → Bool
is_source_type other_source = false
is_source_type _ = true

abbrev pub new_job : String → ℕ → SourceType → String → String → Option String → Job
new_job id now source_type source settings_json input_json = record {
  id = id;
  created_at = now;
  source_type = source_type;
  source = source;
  title = none;
  status = pending;
  error = none;
  settings_json = settings_json;
  input_json = input_json;
}

pub data CreateError : Type 0 where
  bad_source_type duplicate_id : CreateError

pub data Created : Type 0 where
  created : Job → Db → Created
  refused : CreateError → Created

abbrev insert_job : Option Job → Job → Db → Created
insert_job (some old) job db = refused duplicate_id
insert_job none job db = created job (record db { jobs = db.jobs ++ job ∷ [] })

-- `id` is the fresh identifier, made of the time and a random suffix; `INSERT` refuses one that is
-- taken. The manifest is given as its JSON text.
unfoldable pub create_job : Db → String → ℕ → SourceType → String → String → Option String → Created
create_job db id now source_type source settings_json input_json =
    if is_source_type source_type
    then insert_job (get_job db id) (new_job id now source_type source settings_json input_json) db
    else refused bad_source_type

pub set_status : JobStatus → Option String → Option String → Job → Job
set_status status error none job = record job { status = status; error = error }
set_status status error (some title) job = record job {
  status = status;
  error = error;
  title = some title;
}

update_where : String → (Job → Job) → List Job → List Job
update_where k f [] = []
update_where k f (j ∷ js) = (if j.id =s= k then f j else j) ∷ update_where k f js

-- `safe_message` of protocol.py, at the limit that this module gives it.
module _ (safe_message : String → String) where
  abbrev pub safe_error : Option String → Option String
  safe_error none = none
  safe_error (some e) = if e =s= "" then none else some (safe_message e)

  unfoldable pub set_job_status : Db → String → JobStatus → Option String → Option String → Db
  unfolding set_status update_where
  set_job_status db k status error title = record db {
    jobs = update_where k (set_status status (safe_error error) title) db.jobs;
  }

abbrev pub is_run : String → String → StageRun → Bool
is_run job stage r = r.job_id =s= job && r.stage =s= stage

-- `INSERT … ON CONFLICT(job_id, stage) DO UPDATE SET …`
unfoldable pub upsert : StageRun → (StageRun → StageRun) → List StageRun → List StageRun
upsert row change [] = row ∷ []
upsert row change (r ∷ rs) =
    let rest = upsert row change rs in
    if is_run row.job_id row.stage r then change r ∷ rs else r ∷ rest

abbrev pub find_run : String → String → List StageRun → Option StageRun
find_run job stage [] = none
find_run job stage (r ∷ rs) = if is_run job stage r then some r else find_run job stage rs

-- The row that the two `INSERT`s have in common.
abbrev pub run_row : String → String → RunStatus → ℕ → ℕ → Option ℕ → Option String → StageRun
run_row job stage status version started finished error = record {
  job_id = job;
  stage = stage;
  status = status;
  schema_version = version;
  started_at = started;
  finished_at = finished;
  error = error;
}

-- The database half of `write_checkpoint`.
unfoldable pub finish_run : Db → String → String → ℕ → ℕ → Db
unfolding upsert
finish_run db job stage version now = record db {
  stage_runs =
      upsert (run_row job stage run_done version now (some now) none)
        (λ r. record r {
          status = run_done;
          schema_version = version;
          finished_at = some now;
          error = none;
        })
        db.stage_runs;
}

mark_change : RunStatus → ℕ → Option String → ℕ → StageRun → StageRun
mark_change run_running version error now r = record r {
  status = run_running;
  schema_version = version;
  error = error;
  started_at = now;
  finished_at = none;
}
mark_change status version error now r = record r {
  status = status;
  schema_version = version;
  error = error;
  finished_at = some now;
}

module _ (safe_message : String → String) where
  -- The inserted row has no finish time, whatever the status.
  unfoldable pub mark_stage : Db → String → String → RunStatus → ℕ → Option String → ℕ → Db
  unfolding upsert mark_change
  mark_stage db job stage status version error now =
      let error = safe_error safe_message error in
      record db {
        stage_runs =
            upsert (run_row job stage status version now none error)
              (mark_change status version error now) db.stage_runs;
      }

-- `SELECT stage, status FROM stage_runs WHERE job_id = ?`
statuses_in : String → List StageRun → List (String × RunStatus)
statuses_in job [] = []
statuses_in job (r ∷ rs) =
    let rest = statuses_in job rs in if r.job_id =s= job then (r.stage, r.status) ∷ rest else rest

unfoldable pub stage_statuses : Db → String → List (String × RunStatus)
unfolding statuses_in
stage_statuses db job = statuses_in job db.stage_runs

drop_runs : String → List StageRun → List StageRun
drop_runs id [] = []
drop_runs id (r ∷ rs) = let rest = drop_runs id rs in if r.job_id =s= id then rest else r ∷ rest

drop_jobs : String → List Job → List Job
drop_jobs id [] = []
drop_jobs id (j ∷ js) = let rest = drop_jobs id js in if j.id =s= id then rest else j ∷ rest

-- `DELETE FROM stage_runs WHERE job_id = ?`, and `DELETE FROM jobs WHERE id = ?`.
unfoldable pub delete_job : Db → String → Db
unfolding drop_runs drop_jobs
delete_job db id = record { jobs = drop_jobs id db.jobs; stage_runs = drop_runs id db.stage_runs }
