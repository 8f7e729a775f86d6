-- ===== src/Jobs/Store/Lifecycle.antt =====
-- What the statements of the job store do to the rows of a run and to the jobs.
use mathlib.Core.Option
use clipgauge.Common.{
  ℕ, String, ◌≡◌, refl, true, ap, ◌∙◌, false, Option, none, some, List, [], ◌∷◌, ◌++◌, arith,
  eq_iff, ◌=s=◌, if◌then◌else◌,
}
use clipgauge.Jobs.Store.{
  Job, JobStatus, StageRun, Db, RunStatus, run_running, run_done, SourceType, pending, created,
  new_job, find_job, get_job, create_job, is_source_type, set_status, update_where, set_job_status,
  safe_error, is_run, upsert, find_run, finish_run, mark_change, mark_stage, run_row,
}
use clipgauge.Jobs.Store.Rows.{
  RunsAreKeyed, KeepsKey, find_run-upsert_self, find_run-upsert_other, upsert-RunsAreKeyed, changed,
}

mark_change-KeepsKey :
    (status : RunStatus) (version : ℕ) (error : Option String) (now : ℕ)
    → KeepsKey (mark_change status version error now)
unfolding mark_change
mark_change-KeepsKey run_running version error now = record { job = λ r. refl; stage = λ r. refl }
mark_change-KeepsKey _ version error now = record { job = λ r. refl; stage = λ r. refl }

abbrev finish_change : ℕ → ℕ → StageRun → StageRun
finish_change version now r = record r {
  status = run_done;
  schema_version = version;
  finished_at = some now;
  error = none;
}

finish_change-KeepsKey : (version now : ℕ) → KeepsKey (finish_change version now)
finish_change-KeepsKey version now = record { job = λ r. refl; stage = λ r. refl }

find_run_key :
    (job stage : String) (rs : List StageRun) {r : StageRun}
    → find_run job stage rs ≡ some r
    → (r.job_id ≡ job) × (r.stage ≡ stage)
find_run_key job stage [] h = cc
find_run_key job stage (s ∷ rs) {r} h =
    ground (arith, find_run_key job stage rs {r = r}, eq_iff s.job_id job, eq_iff s.stage stage)

abbrev pub run_of : Db → String → String → Option StageRun
run_of db job stage = find_run job stage db.stage_runs

module _ (safe_message : String → String) (db : Db) (job stage : String) (version : ℕ) where
  finish_after_start :
      (t0 t1 : ℕ) (old : Option StageRun)
      → ((r : StageRun) → old ≡ some r → (r.job_id ≡ job) × (r.stage ≡ stage))
      → finish_change version t1 (
          changed
            (run_row job stage run_running version t0 none none)
            (mark_change run_running version none t0)
            (mark_change-KeepsKey run_running version none t0)
            old)
        ≡ run_row job stage run_done version t0 (some t1) none
  unfolding mark_change
  finish_after_start t0 t1 none keyed = refl
  finish_after_start t0 t1 (some r) keyed = ground (arith, keyed r refl)

  -- A stage that is marked as running and then finished has one row, with the first time as its
  -- start, the second as its end and no error, whatever runs the table held before; the rows of
  -- all other stages and jobs are as they were.
  pub run_lifecycle :
      (t0 t1 : ℕ)
      → let db' =
          finish_run
            (mark_stage safe_message db job stage run_running version none t0)
            job
            stage
            version
            t1 in
        (run_of db' job stage ≡ some (run_row job stage run_done version t0 (some t1) none))
        × ((k s : String)
            → is_run k s (run_row job stage run_done version t0 none none) ≡ false
            → run_of db' k s ≡ run_of db k s)
  unfolding finish_run mark_stage
  run_lifecycle t0 t1 =
      let start = run_row job stage run_running version t0 none none in
      let finish = run_row job stage run_done version t1 (some t1) none in
      let mark = mark_change run_running version none t0 in
      let marks = mark_change-KeepsKey run_running version none t0 in
      let ends = finish_change-KeepsKey version t1 in
      let marked = upsert start mark db.stage_runs in
      (
        find_run-upsert_self finish (finish_change version t1) ends marked
            ∙ ap (λ o. some (changed finish (finish_change version t1) ends o))
                (find_run-upsert_self start mark marks db.stage_runs)
            ∙ ap some (
                finish_after_start t0 t1 (find_run job stage db.stage_runs)
                  (λ r h. find_run_key job stage db.stage_runs h)),
        λ k s h.
            find_run-upsert_other finish (finish_change version t1) ends k s marked h
            ∙ find_run-upsert_other start mark marks k s db.stage_runs h,
      )

  -- Every way to mark a stage keeps at most one row for each job and stage.
  pub mark_stage-RunsAreKeyed :
      (status : RunStatus) (error : Option String) (now : ℕ)
      → RunsAreKeyed db.stage_runs
      → RunsAreKeyed (mark_stage safe_message db job stage status version error now).stage_runs
  unfolding mark_stage
  mark_stage-RunsAreKeyed status error now k =
      upsert-RunsAreKeyed _ _ (mark_change-KeepsKey status version _ now) db.stage_runs k

  finish_run-RunsAreKeyed :
      (now : ℕ)
      → RunsAreKeyed db.stage_runs
      → RunsAreKeyed (finish_run db job stage version now).stage_runs
  unfolding finish_run
  finish_run-RunsAreKeyed now k =
      upsert-RunsAreKeyed _ _ (finish_change-KeepsKey version now) db.stage_runs k

set_status-id :
    (status : JobStatus) (error title : Option String) (j : Job)
    → (set_status status error title j).id ≡ j.id
unfolding set_status
set_status-id status error none j = refl
set_status-id status error (some t) j = refl

find_job-update_where :
    (k j : String) (f : Job → Job) (js : List Job)
    → ((i : Job) → (f i).id ≡ i.id)
    → find_job j (update_where k f js)
      ≡ (if k =s= j then Option.map f (find_job j js) else find_job j js)
unfolding find_job update_where
find_job-update_where k j f [] keeps = ground (arith, eq_iff k j)
find_job-update_where k j f (i ∷ js) keeps = ground (
  arith,
  find_job-update_where k j f js keeps,
  keeps i,
  eq_iff k j,
  eq_iff i.id k,
  eq_iff i.id j,
  eq_iff (f i).id j,
)

module _ (safe_message : String → String) where
  -- Setting the status of one job changes the status, the error and, if one is given, the title of
  -- that job, and no field of any other.
  pub get_job-set_job_status :
      (db : Db) (k j : String) (status : JobStatus) (error title : Option String)
      → get_job (set_job_status safe_message db k status error title) j ≡ (
          if k =s= j
          then Option.map (set_status status (safe_error safe_message error) title) (get_job db j)
          else get_job db j)
  unfolding get_job set_job_status
  get_job-set_job_status db k j status error title =
      find_job-update_where k j (set_status status (safe_error safe_message error) title) db.jobs
        (set_status-id status (safe_error safe_message error) title)

module _ (safe_message : String → String) (db : Db) (k : String) where
  pub get_job-set_job_status_self :
      (status : JobStatus) (error : Option String) (j : Job)
      → get_job db k ≡ some j
      → get_job (set_job_status safe_message db k status error none) k
        ≡ some (record j { status = status; error = safe_error safe_message error })
  unfolding set_status
  get_job-set_job_status_self status error j h =
      ground (arith, get_job-set_job_status safe_message db k k status error none, eq_iff k k)

  pub get_job-mark_stage :
      (job stage : String) (status : RunStatus) (version : ℕ) (error : Option String) (now : ℕ)
      → get_job (mark_stage safe_message db job stage status version error now) k ≡ get_job db k
  unfolding get_job mark_stage
  get_job-mark_stage job stage status version error now = refl

pub set_job_status-stage_runs :
    (safe_message : String → String) (db : Db) (k : String) (status : JobStatus)
    (error title : Option String)
    → (set_job_status safe_message db k status error title).stage_runs ≡ db.stage_runs
unfolding set_job_status
set_job_status-stage_runs safe_message db k status error title = refl

pub get_job-finish_run :
    (db : Db) (k job stage : String) (version now : ℕ)
    → get_job (finish_run db job stage version now) k ≡ get_job db k
unfolding get_job finish_run
get_job-finish_run db k job stage version now = refl

find_job-append :
    (k : String) (js is : List Job) → find_job k js ≡ none → find_job k (js ++ is) ≡ find_job k is
unfolding find_job
find_job-append k [] is h = refl
find_job-append k (j ∷ js) is h = ground (arith, find_job-append k js is)

find_job-append_some :
    (k : String) (j : Job) (js is : List Job)
    → find_job k js ≡ some j
    → find_job k (js ++ is) ≡ some j
unfolding find_job
find_job-append_some k j [] is h = cc
find_job-append_some k j (i ∷ js) is h = ground (arith, find_job-append_some k j js is)

module _ (db : Db) (id : String) (now : ℕ) (kind : SourceType) (source settings : String)
    (input : Option String) where
  abbrev made : Job
  made = new_job id now kind source settings input

  create_job_inversion :
      (job : Job) (db' : Db)
      → create_job db id now kind source settings input ≡ created job db'
      → (get_job db id ≡ none) × (job ≡ made) × (db' ≡ record db { jobs = db.jobs ++ made ∷ [] })
  unfolding create_job
  create_job_inversion job db' h = ground arith

  -- A new job is found under its identifier, pending and with no error; that identifier was free,
  -- and every job that was there is still found as it was.
  pub create_job_lem :
      (job : Job) (db' : Db)
      → create_job db id now kind source settings input ≡ created job db'
      → (get_job db id ≡ none)
        × (get_job db' id ≡ some job)
        × (job.status ≡ pending)
        × (job.error ≡ none)
        × ((k : String) (j : Job) → get_job db k ≡ some j → get_job db' k ≡ some j)
  unfolding get_job find_job
  create_job_lem job db' h =
      let (free, is_made, added) = create_job_inversion job db' h in
      (
        free,
        ground (arith, ap Db.jobs added, find_job-append id db.jobs (made ∷ []), eq_iff id id),
        ground arith,
        ground arith,
        λ k j old.
            ap (λ (d : Db). find_job k d.jobs) added
            ∙ find_job-append_some k j db.jobs (made ∷ []) old,
      )

  -- A job of a known type under a free identifier is created: it is found under that identifier,
  -- pending, with no error, and with its source and its settings; every job that was there is found as
  -- it was, and so is every row of a stage.
  pub create_job-IsAdded :
      is_source_type kind ≡ true
      → get_job db id ≡ none
      → (job : Job) × (db' : Db) × (create_job db id now kind source settings input
          ≡ created job db')
        × (get_job db' id ≡ some job)
        × ((job.status ≡ pending) × (job.error ≡ none))
        × ((job.source ≡ source) × (job.settings_json ≡ settings) × (job.input_json ≡ input))
        × ((k : String) (j : Job) → get_job db k ≡ some j → get_job db' k ≡ some j)
        × (db'.stage_runs ≡ db.stage_runs)
  unfolding create_job
  create_job-IsAdded known free =
      let db' : Db = record db { jobs = db.jobs ++ made ∷ [] } in
      let made_so : create_job db id now kind source settings input ≡ created made db' =
        ground (arith, known, free) in
      let (_, found, status, error, kept) = create_job_lem made db' made_so in
      (made, db', made_so, found, (status, error), (refl, refl, refl), kept, refl)
