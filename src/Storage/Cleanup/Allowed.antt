-- ===== src/Storage/Cleanup/Allowed.antt =====
-- What a clean-up of pipeline/clipgauge_pipeline/storage.py deletes and keeps.
use clipgauge.Common.{
  String, ◌≡◌, ◌≢◌, refl, sym, subst, ◌⊎◌, inl, inr, Bool, true, false, ◌&&◌, ◌||◌, not, Option,
  none, some, List, [], ◌∷◌, ◌++◌, ◌=s=◌, arith, All, All-map, All-append, if_ind, if◌then◌else◌,
  Result, ok, err, ◌>>=◌,
}
use clipgauge.Jobs.Store.{JobStatus, Job, StageRun, Db, get_job, find_run}
use clipgauge.Jobs.Store.Rows.{get_job-delete_job, find_run-delete_job}
use clipgauge.Storage.{Node, Nodes, TreePath, is_temporary}
use clipgauge.Storage.Tree.{node_at, file_size, remove_at, is_below, Removes, file_size-remove_at}
use clipgauge.Storage.Cleanup.{
  Target, CleanupError, Root, job_id_pattern, matches, stored_job_status, is_folder, job_path,
  all_temporary, nodes_of, is_archive, archives_in, has_runtimes, check_status, session_path,
  candidates, remove_all, forget_job, is_session, Removed, after_removal, delete_candidates,
  cleanup,
}

-- A temporary file below a folder of the data root.
abbrev pub IsTemporaryBelow : String → TreePath → Type 0
IsTemporaryBelow base p =
    (mid : TreePath) × (name : String) × (p ≡ base ∷ mid ++ name ∷ []) × (is_temporary name ≡ true)

abbrev pub IsArchive : TreePath → Type 0
IsArchive p = (name : String) × (p ≡ "downloads" ∷ name ∷ []) × (is_archive name ≡ true)

-- A session that failed may go, and for the other target any that does not run.
abbrev pub MayGo : Bool → JobStatus → Type 0
MayGo true status = status ≡ JobStatus.failed
MayGo false status = status ≢ JobStatus.running

-- The folder of a job that is known, by its status.
abbrev pub IsSession : Root → Bool → String → TreePath → Type 0
IsSession root only_failed id p =
    (p ≡ "jobs" ∷ id ∷ [])
    × (matches job_id_pattern id ≡ true)
    × (status : JobStatus) × (stored_job_status root id ≡ some status)
    × MayGo only_failed status

abbrev pub IsAllowed : Root → Target → String → TreePath → Type 0
IsAllowed root Target.session id p = IsSession root false id p
IsAllowed root Target.failed_session id p = IsSession root true id p
IsAllowed root Target.safe_cache id p = IsTemporaryBelow "downloads" p ⊎ IsTemporaryBelow "temp" p
IsAllowed root Target.obsolete_runtime_archives id p = IsArchive p

all_temporary-All :
    (base : String) (mid : TreePath) (ns : Nodes)
    → All (IsTemporaryBelow base) (all_temporary (base ∷ mid) ns)
all_temporary-All base mid Nodes.no_more = tt
all_temporary-All base mid (Nodes.named name (Node.plain_file n) ns) =
    if_ind (All (IsTemporaryBelow base)) (is_temporary name)
      (λ temporary. ((mid, name, refl, temporary), all_temporary-All base mid ns))
      (λ _. all_temporary-All base mid ns)
all_temporary-All base mid (Nodes.named name Node.symlink ns) = all_temporary-All base mid ns
all_temporary-All base mid (Nodes.named name (Node.folder ms) ns) =
    All-append (IsTemporaryBelow base) (all_temporary (base ∷ mid ++ name ∷ []) ms)
      (all_temporary (base ∷ mid) ns) (all_temporary-All base (mid ++ name ∷ []) ms)
      (all_temporary-All base mid ns)

archives_in-All : (ns : Nodes) → All IsArchive (archives_in ns)
archives_in-All Nodes.no_more = tt
archives_in-All (Nodes.named name (Node.plain_file n) ns) =
    if_ind (All IsArchive) (is_archive name)
      (λ archive. ((name, refl, archive), archives_in-All ns)) (λ _. archives_in-All ns)
archives_in-All (Nodes.named name Node.symlink ns) = archives_in-All ns
archives_in-All (Nodes.named name (Node.folder ms) ns) = archives_in-All ns

-- Paths that are found satisfy a predicate, and none is the data root itself; the database is only
-- written to later.
abbrev pub AllowedIfOk : (TreePath → Type 0) → Result CleanupError (List TreePath) → Type 0
AllowedIfOk P (err CleanupError.database_failed) = ⊥
AllowedIfOk P (err _) = Unit
AllowedIfOk P (ok paths) = All P paths

job_path-AllowedIfOk :
    (root : Root) (only_failed : Bool) (id : String) (status : JobStatus)
    → stored_job_status root id ≡ some status
    → MayGo only_failed status
    → AllowedIfOk (IsSession root only_failed id) (job_path root id)
job_path-AllowedIfOk root only_failed id status known may =
    if_ind (AllowedIfOk (IsSession root only_failed id)) (not (matches job_id_pattern id)) (λ _. tt)
      (λ fits.
        if_ind (AllowedIfOk (IsSession root only_failed id))
          (is_folder (node_at ("jobs" ∷ id ∷ []) root.tree))
          (λ _. ((refl, ground (arith, fits), status, known, may), tt)) (λ _. tt))

session_path-AllowedIfOk :
    (root : Root) (only_failed : Bool) (id : String)
    → AllowedIfOk (IsSession root only_failed id) (session_path root only_failed id)
session_path-AllowedIfOk root only_failed id =
    if_ind (AllowedIfOk (IsSession root only_failed id)) (id =s= "") (λ _. tt)
      (λ _. by_status only_failed (stored_job_status root id) refl)
  where
    by_status :
        (only_failed : Bool) (status : Option JobStatus)
        → stored_job_status root id ≡ status
        → AllowedIfOk
            (IsSession root only_failed id)
            (check_status only_failed status >>= λ _. job_path root id)
    by_status only none known = tt
    by_status only (some JobStatus.running) known = tt
    by_status true (some JobStatus.failed) known =
        job_path-AllowedIfOk root true id JobStatus.failed known refl
    by_status false (some JobStatus.failed) known =
        job_path-AllowedIfOk root false id JobStatus.failed known (λ e. ground arith)
    by_status true (some JobStatus.pending) known = tt
    by_status false (some JobStatus.pending) known =
        job_path-AllowedIfOk root false id JobStatus.pending known (λ e. ground arith)
    by_status true (some JobStatus.done) known = tt
    by_status false (some JobStatus.done) known =
        job_path-AllowedIfOk root false id JobStatus.done known (λ e. ground arith)

candidates-AllowedIfOk :
    (root : Root) (target : Target) (id : String)
    → AllowedIfOk (IsAllowed root target id) (candidates root target id)
unfolding candidates
candidates-AllowedIfOk root Target.session id = session_path-AllowedIfOk root false id
candidates-AllowedIfOk root Target.failed_session id = session_path-AllowedIfOk root true id
candidates-AllowedIfOk root Target.safe_cache id =
    All-append (IsAllowed root Target.safe_cache id)
      (all_temporary ("downloads" ∷ []) (nodes_of (node_at ("downloads" ∷ []) root.tree)))
      (all_temporary ("temp" ∷ []) (nodes_of (node_at ("temp" ∷ []) root.tree)))
      (All-map (IsTemporaryBelow "downloads") (IsAllowed root Target.safe_cache id) _ (λ p h. inl h)
        (all_temporary-All "downloads" [] (nodes_of (node_at ("downloads" ∷ []) root.tree))))
      (All-map (IsTemporaryBelow "temp") (IsAllowed root Target.safe_cache id) _ (λ p h. inr h)
        (all_temporary-All "temp" [] (nodes_of (node_at ("temp" ∷ []) root.tree))))
candidates-AllowedIfOk root Target.obsolete_runtime_archives id =
    if_ind (All IsArchive) (has_runtimes root.tree)
      (λ _. archives_in-All (nodes_of (node_at ("downloads" ∷ []) root.tree))) (λ _. tt)

-- A path that is allowed is not that of the data root.
allowed_below :
    (root : Root) (target : Target) (id : String) (p : TreePath)
    → IsAllowed root target id p
    → (k : String) × (ks : TreePath) × (p ≡ k ∷ ks)
allowed_below root Target.session id p h = ("jobs", id ∷ [], h.0)
allowed_below root Target.failed_session id p h = ("jobs", id ∷ [], h.0)
allowed_below root Target.safe_cache id p (inl (mid, name, e, t)) =
    ("downloads", mid ++ name ∷ [], e)
allowed_below root Target.safe_cache id p (inr (mid, name, e, t)) = ("temp", mid ++ name ∷ [], e)
allowed_below root Target.obsolete_runtime_archives id p (name, e, t) = ("downloads", name ∷ [], e)

-- The path lies at one of the paths or below it.
abbrev pub is_below_any : List TreePath → TreePath → Bool
is_below_any [] q = false
is_below_any (p ∷ ps) q = is_below p q || is_below_any ps q

remove_all-file_size :
    (root : Root) (target : Target) (id : String) (ps : List TreePath) (q : TreePath) (tree : Nodes)
    → All (IsAllowed root target id) ps
    → file_size (node_at q (remove_all ps tree))
      ≡ (if is_below_any ps q then none else file_size (node_at q tree))
unfolding remove_all
remove_all-file_size root target id [] q tree h = refl
remove_all-file_size root target id (p ∷ ps) q tree h =
    let (k, ks, e) = allowed_below root target id p h.0 in
    ground (
      arith,
      remove_all-file_size root target id ps q (remove_at p tree) h.1,
      subst (λ r. Removes r q tree) (sym e) (file_size-remove_at k ks q tree),
    )

-- The row of a job, and that of one of its stages.
abbrev pub stored_job : Option Db → String → Option Job
stored_job none id = none
stored_job (some db) id = get_job db id

abbrev pub stored_run : Option Db → String → String → Option StageRun
stored_run none id stage = none
stored_run (some db) id stage = find_run id stage db.stage_runs

-- No job is lost but the one that is forgotten, with its stages.
abbrev pub KeepsJobs : Option Db → Bool → String → Option Db → Type 0
KeepsJobs before forgets id after =
    ((j : String)
      → stored_job after j ≡ (if forgets && id =s= j then none else stored_job before j))
    × ((j stage : String)
        → stored_run after j stage
          ≡ (if forgets && id =s= j then none else stored_run before j stage))

forget_job-KeepsJobs :
    (database : Option Db) (id : String) → KeepsJobs database true id (forget_job id database)
forget_job-KeepsJobs none id = (λ j. ground arith, λ j stage. ground arith)
forget_job-KeepsJobs (some db) id =
    (λ j. get_job-delete_job db id j, λ j stage. find_run-delete_job db id j stage)

-- The paths are allowed, no file is left there, and each other file is as it was.
abbrev pub AreGone : Root → Target → String → List TreePath → Root → Type 0
AreGone root target id paths after =
    All (IsAllowed root target id) paths
    × ((q : TreePath)
        → file_size (node_at q after.tree)
          ≡ (if is_below_any paths q then none else file_size (node_at q root.tree)))

-- What a clean-up has done.
abbrev pub Done : Root → Target → String → Bool → Root → Result CleanupError Removed → Type 0
Done root target id confirmed after (err CleanupError.database_failed) =
    (confirmed ≡ true)
    × (is_session target ≡ true)
    × ((paths : List TreePath) × AreGone root target id paths after)
    × (after.database ≡ root.database)
Done root target id confirmed after (err _) = after ≡ root
Done root target id confirmed after (ok r) =
    (confirmed ≡ true)
    × AreGone root target id r.paths after
    × KeepsJobs root.database (is_session target) id after.database

abbrev IsDone : Root → Target → String → Bool → Root × Result CleanupError Removed → Type 0
IsDone root target id confirmed r = Done root target id confirmed r.0 r.1

-- A clean-up that is refused changes nothing. One that succeeds was confirmed and has deleted paths
-- that the target allows only: temporary files of the two cache folders, archives of runtimes, or
-- the folder of a job whose status lets it go. No file is left there, and each other file is as it
-- was. So is the row of each job and of each of its stages, but for the job whose session is deleted,
-- which has none left. If SQLite raises behind the deletion of a session, the files are gone in the
-- same way, and the database is as it was.
pub cleanup-Done :
    (root : Root) (target : Target) (id : String) (confirmed fails : Bool)
    → Done root target id confirmed
        (cleanup root target id confirmed fails).0
        (cleanup root target id confirmed fails).1
unfolding cleanup
cleanup-Done root target id confirmed fails =
    if_ind (IsDone root target id confirmed) (not confirmed) (λ _. refl)
      (λ agreed.
        with_candidates (candidates root target id) (candidates-AllowedIfOk root target id)
          (ground (arith, agreed)))
  where
    jobs_after :
        (t : Target) (paths : List TreePath)
        → KeepsJobs root.database (is_session t) id (after_removal root t id paths).database
    jobs_after Target.session paths = forget_job-KeepsJobs root.database id
    jobs_after Target.failed_session paths = forget_job-KeepsJobs root.database id
    jobs_after Target.safe_cache paths = (λ j. refl, λ j stage. refl)
    jobs_after Target.obsolete_runtime_archives paths = (λ j. refl, λ j stage. refl)

    with_candidates :
        (found : Result CleanupError (List TreePath))
        → AllowedIfOk (IsAllowed root target id) found
        → confirmed ≡ true
        → IsDone root target id confirmed (delete_candidates root target id fails found)
    with_candidates (err CleanupError.database_failed) h agreed = absurd h
    with_candidates (err _) h agreed = refl
    with_candidates (ok paths) h agreed =
        let sizes = λ (q : TreePath). remove_all-file_size root target id paths q root.tree h in
        if_ind (IsDone root target id confirmed) (is_session target && fails)
          (λ failed. (agreed, ground (arith, failed), (paths, (h, sizes)), refl))
          (λ _. (agreed, (h, sizes), jobs_after target paths))
