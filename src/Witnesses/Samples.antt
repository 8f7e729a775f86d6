-- ===== src/Witnesses/Samples.antt =====
-- A small job with one stage, on a file system that holds nothing.
use clipgauge.Common.{true, false, none, some, List, [], ◌∷◌}
use clipgauge.Json.{num, str, obj, Fields, end, field}
use clipgauge.Jobs.Store.{Job, Db, url, new_job}
use clipgauge.Jobs.Artifacts.{PathOps, FileSystem, Site, Descriptor}
use clipgauge.Jobs.Artifacts.Validate.{update_manifest}
use clipgauge.Jobs.Checkpoint.{Files, missing, parsed, Hashing, envelope}
use clipgauge.Jobs.Runner.{Env, Stage, Observed, Turn, State, returned}

abbrev pub ops : PathOps
ops = record {
  is_absolute = λ _. false;
  has_parent_part = λ _. false;
  join = λ _ p. p;
  relative_to = λ _ p. some p;
  media_type = λ _. "application/octet-stream";
  is_media = λ _. false;
  sha256 = λ _. "0";
  join_dots = λ parts. elim parts [ [] ↦ "" | p ∷ _ ↦ p ];
  split_dots = λ s. s ∷ [];
  index_text = λ _. "0";
  index_of = λ _. none;
  equal = λ _ _. true;
}

abbrev pub site : Site
site = record { ops = ops; root = "job"; version = "0.6" }

abbrev pub no_files : FileSystem
no_files = record {
  resolve = λ _. none;
  is_symlink = λ _. false;
  is_file = λ _. false;
  readable = λ _. false;
  size = λ _. 0;
  mtime = λ _. 0;
  content = λ _. [];
}

-- Every path names a readable file of ten bytes.
abbrev pub some_files : FileSystem
some_files = record no_files {
  resolve = λ p. some p;
  is_file = λ _. true;
  readable = λ _. true;
  size = λ _. 10;
}

abbrev pub hashing : Hashing
hashing = record { fingerprint = λ _. "f"; loads = λ _. none }

abbrev pub job : Job
job = new_job "a" 1 url "https://example.org/v" "{}" none

abbrev pub env : Env
env = record {
  job = job;
  settings = end;
  site = site;
  hashing = hashing;
  source_is_remote = true;
  safe_message = λ s. s;
  disk_message = λ _. "low";
  artifact_message = λ _. "artifact";
  int_or_zero = λ v. elim v [ num n ↦ some n | _ ↦ none ];
}

abbrev pub content : Fields
content =
    field "title" (str "t")
      (field "_checkpoint" (obj (field "dependency_fingerprint" (str "f") end)) end)

abbrev pub ingest : Stage
ingest = record {
  name = "ingest";
  schema_version = 1;
  run = λ fs _. (returned (field "title" (str "t") end), fs);
  artifacts_ok = λ _ _. some true;
  timing_metadata = λ _. end;
}

abbrev pub score : Stage
score = record ingest {
  name = "score";
  run = λ fs _. (returned (field "outcome" (str "SUCCESS_NO_RECOMMENDATIONS") end), fs);
}

abbrev pub observed : Observed
observed = record {
  cancelled = false;
  stat = none;
  free = some 100000000000;
  started_at = 2;
  finished_at = 3;
  active = 1;
  diagnostic_id = "d";
}

abbrev pub turns : List Turn
turns = (ingest, observed) ∷ (score, observed) ∷ []

abbrev pub db : Db
db = record { jobs = job ∷ []; stage_runs = [] }

abbrev pub fresh_files : Files
fresh_files = record { checkpoint = λ _. missing; manifest = missing }

abbrev pub fresh : State
fresh = record { db = db; files = fresh_files; fs = no_files; timing = missing; results = [] }

-- The files once `ingest` has been stored.
unfoldable pub cached_files : Files
unfolding envelope update_manifest
cached_files = record {
  checkpoint = λ _. parsed (obj (envelope "ingest" 1 5 content (obj content) []));
  manifest = parsed (obj (update_manifest site none "ingest" 1 [] 5));
}

abbrev pub resumed : State
resumed = record fresh { files = cached_files }

-- A result that refers to one of the files.
abbrev pub clip_content : Fields
clip_content = field "media_path" (str "clip.mp4") content

abbrev clip : Descriptor
clip = record {
  relative_path = "clip.mp4";
  producer_stage = "ingest";
  producer_version = "0.6";
  size = 10;
  updated_at = 0;
  media_type = "application/octet-stream";
  role = "media_path";
  sampled = false;
  integrity_hash = "0";
}

-- The files once it has been stored.
unfoldable pub clip_files : Files
unfolding envelope update_manifest
clip_files = record {
  checkpoint =
      λ _. parsed (obj (envelope "ingest" 1 5 clip_content (obj clip_content) (clip ∷ [])));
  manifest = parsed (obj (update_manifest site none "ingest" 1 (clip ∷ []) 5));
}
