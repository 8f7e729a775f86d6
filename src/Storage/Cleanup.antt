-- ===== src/Storage/Cleanup.antt =====
-- The clean-up of pipeline/clipgauge_pipeline/storage.py: what it may delete, and what it deletes.
pub mod Allowed
use Prim.Native.Char.{Char, code}
use Prim.Native.String.{String, [], ◌∷◌}
use clipgauge.Common.{
  ℕ, zero, suc, ◌+◌, ◌≡◌, Bool, true, false, ◌&&◌, ◌||◌, not, Option, none, some, List, [], ◌∷◌,
  ◌++◌, leb, ◌==◌, ◌=s=◌, if◌then◌else◌, Result, ok, err, ◌>>=◌,
}
use clipgauge.Text.Find.{begins_with_any}
use clipgauge.Jobs.Store.{JobStatus, Job, StageRun, Db, get_job, delete_job}
use clipgauge.Storage.{Node, Nodes, TreePath, is_temporary}
use clipgauge.Storage.Tree.{node_at, remove_at}
use clipgauge.Storage.Scan.{node_size}

pub data Target : Type 0 where
  session failed_session safe_cache obsolete_runtime_archives : Target

pub data CleanupError : Type 0 where
  no_confirmation no_job_id invalid_job_id unavailable is_running not_failed database_failed :
      CleanupError

-- The data root: the tree, and the job store, unless its file is missing or cannot be read.
pub record Root : Type 0 where
  pub tree : Nodes
  pub database : Option Db

-- The pattern of a job's identifier.
pub data Class : Type 0 where
  digit hex dash : Class

abbrev pub is_of : Class → ℕ → Bool
is_of digit n = leb 48 n && leb n 57
is_of hex n = (leb 48 n && leb n 57) || (leb 97 n && leb n 102)
is_of dash n = n == 45

abbrev pub times : ℕ → Class → List Class → List Class
times zero c rest = rest
times (suc n) c rest = c ∷ times n c rest

abbrev pub job_id_pattern : List Class
job_id_pattern = times 8 digit (dash ∷ times 6 digit (dash ∷ times 6 hex []))

unfoldable pub matches : List Class → String → Bool
matches [] [] = true
matches [] (c ∷ s) = false
matches (p ∷ ps) [] = false
matches (p ∷ ps) (c ∷ s) = is_of p (code c) && matches ps s

-- `_job_status`
abbrev pub stored_job_status : Root → String → Option JobStatus
stored_job_status root id = elim root.database [
  | none ↦ none
  | some db ↦ status_of_job (get_job db id)
]
  where
    status_of_job : Option Job → Option JobStatus
    status_of_job none = none
    status_of_job (some job) = some job.status

abbrev pub is_folder : Option Node → Bool
is_folder (some (Node.folder ns)) = true
is_folder _ = false

-- `_job_path`
abbrev pub job_path : Root → String → Result CleanupError (List TreePath)
job_path root id =
    if not (matches job_id_pattern id)
    then err invalid_job_id
    else if is_folder (node_at ("jobs" ∷ id ∷ []) root.tree)
    then ok (("jobs" ∷ id ∷ []) ∷ [])
    else err unavailable

-- The paths of the temporary files of a folder, and of the folders below it.
abbrev pub all_temporary : TreePath → Nodes → List TreePath
all_temporary at Nodes.no_more = []
all_temporary at (Nodes.named name (Node.plain_file n) ns) =
    let rest = all_temporary at ns in if is_temporary name then (at ++ name ∷ []) ∷ rest else rest
all_temporary at (Nodes.named name Node.symlink ns) = all_temporary at ns
all_temporary at (Nodes.named name (Node.folder ms) ns) =
    all_temporary (at ++ name ∷ []) ms ++ all_temporary at ns

abbrev pub nodes_of : Option Node → Nodes
nodes_of (some (Node.folder ns)) = ns
nodes_of _ = Nodes.no_more

-- `_safe_files`
abbrev pub safe_files : Nodes → List TreePath
safe_files tree =
    all_temporary ("downloads" ∷ []) (nodes_of (node_at ("downloads" ∷ []) tree))
    ++ all_temporary ("temp" ∷ []) (nodes_of (node_at ("temp" ∷ []) tree))

abbrev pub is_archive : String → Bool
is_archive name = begins_with_any name ("llama-server-" ∷ "ffmpeg-" ∷ "node-" ∷ "bgutil-" ∷ [])

abbrev pub archives_in : Nodes → List TreePath
archives_in Nodes.no_more = []
archives_in (Nodes.named name (Node.plain_file n) ns) =
    let rest = archives_in ns in if is_archive name then ("downloads" ∷ name ∷ []) ∷ rest else rest
archives_in (Nodes.named name n ns) = archives_in ns

abbrev pub has_runtimes : Nodes → Bool
has_runtimes tree =
    is_folder (node_at ("runtimes" ∷ "llama-server" ∷ []) tree)
    || is_folder (node_at ("runtimes" ∷ "ffmpeg" ∷ []) tree)
    || is_folder (node_at ("runtimes" ∷ "youtube" ∷ []) tree)

-- `_runtime_archives`
abbrev pub runtime_archives : Nodes → List TreePath
runtime_archives tree =
    if has_runtimes tree then archives_in (nodes_of (node_at ("downloads" ∷ []) tree)) else []

-- The session of a job may be deleted, by its status.
abbrev pub check_status : Bool → Option JobStatus → Result CleanupError (Unit {0})
check_status only_failed none = err unavailable
check_status only_failed (some JobStatus.running) = err is_running
check_status only_failed (some JobStatus.failed) = ok tt
check_status only_failed (some s) = if only_failed then err not_failed else ok tt

abbrev pub session_path : Root → Bool → String → Result CleanupError (List TreePath)
session_path root only_failed id =
    if id =s= ""
    then err no_job_id
    else check_status only_failed (stored_job_status root id) >>= λ _. job_path root id

-- `_candidates`; an identifier that is missing is empty.
unfoldable pub candidates : Root → Target → String → Result CleanupError (List TreePath)
unfolding matches node_at begins_with_any
candidates root session id = session_path root false id
candidates root failed_session id = session_path root true id
candidates root safe_cache id = ok (safe_files root.tree)
candidates root obsolete_runtime_archives id = ok (runtime_archives root.tree)

-- The loop of `cleanup`.
unfoldable pub remove_all : List TreePath → Nodes → Nodes
unfolding remove_at
remove_all [] tree = tree
remove_all (p ∷ ps) tree = remove_all ps (remove_at p tree)

abbrev pub forget_job : String → Option Db → Option Db
forget_job id none = none
forget_job id (some db) = some (delete_job db id)

abbrev pub is_session : Target → Bool
is_session session = true
is_session failed_session = true
is_session _ = false

abbrev pub sizes_of : List TreePath → Nodes → ℕ
sizes_of [] tree = 0
sizes_of (p ∷ ps) tree = size_at (node_at p tree) + sizes_of ps tree
  where
    size_at : Option Node → ℕ
    size_at none = 0
    size_at (some n) = node_size n

-- What is returned: the paths and their bytes.
pub record Removed : Type 0 where
  pub paths : List TreePath
  pub bytes : ℕ

abbrev pub after_removal : Root → Target → String → List TreePath → Root
after_removal root target id paths = record {
  tree = remove_all paths root.tree;
  database = if is_session target then forget_job id root.database else root.database;
}

-- SQLite may raise when the rows are deleted; the files are gone by then, and the rows stay.
abbrev pub delete_candidates :
    Root
    → Target
    → String
    → Bool
    → Result CleanupError (List TreePath)
    → Root × Result CleanupError Removed
delete_candidates root target id fails (err e) = (root, err e)
delete_candidates root target id fails (ok paths) =
    if is_session target && fails
    then (record root { tree = remove_all paths root.tree }, err database_failed)
    else (
      after_removal root target id paths,
      ok (record { paths = paths; bytes = sizes_of paths root.tree }),
    )

-- The last argument tells whether SQLite raises.
unfoldable pub cleanup : Root → Target → String → Bool → Bool → Root × Result CleanupError Removed
unfolding candidates remove_all get_job delete_job node_size
cleanup root target id confirmed fails =
    if not confirmed
    then (root, err no_confirmation)
    else delete_candidates root target id fails (candidates root target id)

-- `preview`
unfoldable pub preview : Root → Target → String → Result CleanupError Removed
unfolding candidates get_job node_size
preview root target id = candidates root target id >>= λ paths.
    ok (record { paths = paths; bytes = sizes_of paths root.tree })
