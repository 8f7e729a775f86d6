-- ===== src/Jobs/Store/Rows.antt =====
-- The tables of the job store stay keyed, and each statement changes the row that it names.
use clipgauge.Common.{
  String, ◌≡◌, false, Option, none, some, List, [], ◌∷◌, All, arith, eq_iff, ◌=s=◌, Bool-cases, inl,
  inr, if◌then◌else◌,
}
use clipgauge.Jobs.Store.{
  Job, StageRun, Db, is_run, upsert, find_run, find_job, get_job, drop_jobs, drop_runs, delete_job,
}

-- No two rows of a table have the same primary key.
abbrev pub RunsAreKeyed : List StageRun → Type 0
RunsAreKeyed [] = Unit
RunsAreKeyed (r ∷ rs) = All (λ s. is_run r.job_id r.stage s ≡ false) rs × RunsAreKeyed rs

abbrev pub JobsAreKeyed : List Job → Type 0
JobsAreKeyed [] = Unit
JobsAreKeyed (j ∷ js) = All (λ i. (i.id =s= j.id) ≡ false) js × JobsAreKeyed js

-- A change of a row that leaves its key alone.
pub record KeepsKey (change : StageRun → StageRun) : Type 0 where
  pub job : (r : StageRun) → (change r).job_id ≡ r.job_id
  pub stage : (r : StageRun) → (change r).stage ≡ r.stage

module _ (row : StageRun) (change : StageRun → StageRun) (keeps : KeepsKey change) where
  abbrev pub changed : Option StageRun → StageRun
  changed none = row
  changed (some r) = change r

  pub find_run-upsert_self :
      (rs : List StageRun)
      → find_run row.job_id row.stage (upsert row change rs)
        ≡ some (changed (find_run row.job_id row.stage rs))
  unfolding upsert
  find_run-upsert_self [] = ground (arith, eq_iff row.job_id row.job_id, eq_iff row.stage row.stage)
  find_run-upsert_self (r ∷ rs) = ground (
    arith,
    find_run-upsert_self rs,
    keeps.job r,
    keeps.stage r,
    eq_iff r.job_id row.job_id,
    eq_iff r.stage row.stage,
    eq_iff (change r).job_id row.job_id,
    eq_iff (change r).stage row.stage,
  )

  pub find_run-upsert_other :
      (job stage : String) (rs : List StageRun)
      → is_run job stage row ≡ false
      → find_run job stage (upsert row change rs) ≡ find_run job stage rs
  unfolding upsert
  find_run-upsert_other job stage [] h = ground arith
  find_run-upsert_other job stage (r ∷ rs) h = ground (
    arith,
    find_run-upsert_other job stage rs,
    keeps.job r,
    keeps.stage r,
    eq_iff r.job_id row.job_id,
    eq_iff r.stage row.stage,
    eq_iff (change r).job_id job,
    eq_iff (change r).stage stage,
    eq_iff r.job_id job,
    eq_iff r.stage stage,
    eq_iff row.job_id job,
    eq_iff row.stage stage,
  )

  upsert-apart :
      (job stage : String) (rs : List StageRun)
      → is_run job stage row ≡ false
      → All (λ s. is_run job stage s ≡ false) rs
      → All (λ s. is_run job stage s ≡ false) (upsert row change rs)
  unfolding upsert
  upsert-apart job stage [] h a = (h, tt)
  upsert-apart job stage (r ∷ rs) h a = ground (
    arith,
    upsert-apart job stage rs h a.1,
    keeps.job r,
    keeps.stage r,
    eq_iff (change r).job_id job,
    eq_iff (change r).stage stage,
    eq_iff r.job_id job,
    eq_iff r.stage stage,
  )

  change-apart :
      (r : StageRun) (rs : List StageRun)
      → All (λ s. is_run r.job_id r.stage s ≡ false) rs
      → All (λ s. is_run (change r).job_id (change r).stage s ≡ false) rs
  change-apart r rs a = rw (keeps.job r) (rw (keeps.stage r) a)

  pub upsert-RunsAreKeyed :
      (rs : List StageRun) → RunsAreKeyed rs → RunsAreKeyed (upsert row change rs)
  unfolding upsert
  upsert-RunsAreKeyed [] k = (tt, tt)
  upsert-RunsAreKeyed (r ∷ rs) k = elim (Bool-cases (is_run row.job_id row.stage r)) [
    | inl same ↦ rw same (change-apart r rs k.0, k.1)
    | inr other ↦ rw other (
      upsert-apart r.job_id r.stage rs
          (ground (
            arith,
            eq_iff r.job_id row.job_id,
            eq_iff r.stage row.stage,
            eq_iff row.job_id r.job_id,
            eq_iff row.stage r.stage,
          ))
          k.0,
      upsert-RunsAreKeyed rs k.1,
    )
  ]

find_job-drop_jobs :
    (id k : String) (js : List Job)
    → find_job k (drop_jobs id js) ≡ (if id =s= k then none else find_job k js)
unfolding find_job drop_jobs
find_job-drop_jobs id k [] = ground arith
find_job-drop_jobs id k (j ∷ js) =
    ground (arith, eq_iff id k, eq_iff j.id id, eq_iff j.id k, find_job-drop_jobs id k js)

-- A job that is deleted is gone, and all others are as they were.
pub get_job-delete_job :
    (db : Db) (id k : String)
    → get_job (delete_job db id) k ≡ (if id =s= k then none else get_job db k)
unfolding get_job delete_job
get_job-delete_job db id k = find_job-drop_jobs id k db.jobs

find_run-drop_runs :
    (id k stage : String) (rs : List StageRun)
    → find_run k stage (drop_runs id rs) ≡ (if id =s= k then none else find_run k stage rs)
unfolding drop_runs
find_run-drop_runs id k stage [] = ground arith
find_run-drop_runs id k stage (r ∷ rs) =
    ground
      (arith, eq_iff id k, eq_iff r.job_id id, eq_iff r.job_id k, find_run-drop_runs id k stage rs)

-- So are the rows of its stages, and of all others.
pub find_run-delete_job :
    (db : Db) (id k stage : String)
    → find_run k stage (delete_job db id).stage_runs
      ≡ (if id =s= k then none else find_run k stage db.stage_runs)
unfolding delete_job
find_run-delete_job db id k stage = find_run-drop_runs id k stage db.stage_runs
