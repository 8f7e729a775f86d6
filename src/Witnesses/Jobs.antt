-- ===== src/Witnesses/Jobs.antt =====
-- The theorems about the job store, the checkpoints and the runner, at concrete inputs.
use clipgauge.Common.{String, ◌≡◌, refl, true, none, some, [], ◌∷◌, arith, ok}
use clipgauge.Json.{obj, get, put}
use clipgauge.Disk.Guard.{disk_headroom_decision}
use clipgauge.Jobs.Runner.{
  State, through, Outcome, completed, aborted, run_stages, append_stage_timing, cached_prefix_ready,
  cached_for, dependency_of, step, stage_error,
}
use clipgauge.Jobs.Runner.Cache.{IsSame, cached_prefix_ready_sound}
use clipgauge.Jobs.Runner.Order.{Answers, run_stages_results}
use clipgauge.Jobs.Runner.Gate.{low_disk_never_runs}
use clipgauge.Jobs.Store.{
  Job, Db, get_job, create_job, created, mark_stage, finish_run, run_row, run_running, run_done,
  pending, url, new_job,
}
use clipgauge.Jobs.Store.Lifecycle.{run_of, run_lifecycle, create_job-IsAdded}
use clipgauge.Jobs.Artifacts.{iter_paths, descriptors_json, prepare, restore}
use clipgauge.Jobs.Artifacts.Validate.{validate, manifest_entry}
use clipgauge.Jobs.Checkpoint.{
  Files, set_result, with_checkpoint_metadata, read_checkpoint_detailed, reusable, write_checkpoint,
}
use clipgauge.Jobs.Checkpoint.Reading.{IsReused, read_checkpoint-IsReused}
use clipgauge.Jobs.Checkpoint.Writing.{
  written, read_checkpoint-write_other, read_checkpoint-write_checkpoint,
}
use clipgauge.Witnesses.Samples.{
  site, no_files, some_files, job, env, content, ingest, observed, turns, db, fresh_files, fresh,
  cached_files, resumed, clip_content, clip_files,
}

program : Unit {0}
unfolding run_stages append_stage_timing cached_prefix_ready step cached_for dependency_of
    disk_headroom_decision write_checkpoint read_checkpoint_detailed validate
    with_checkpoint_metadata set_result get put descriptors_json manifest_entry prepare restore
    iter_paths get_job create_job
program = tt

is_ready : cached_prefix_ready env "ingest" turns resumed ≡ some true
unfolding program cached_files
is_ready = refl

first_turn : through env "ingest" turns ≡ some ((ingest, observed) ∷ [])
unfolding through
first_turn = refl

cached_prefix_ready_sound_example :
    (s' : State) × (run_stages env (some "ingest") turns resumed ≡ completed s') × IsSame resumed s'
cached_prefix_ready_sound_example =
    cached_prefix_ready_sound env "ingest" turns ((ingest, observed) ∷ []) resumed first_turn
      (refl, tt) tt is_ready

abbrev state_after : Outcome → State
state_after (completed s) = s
state_after (aborted f s) = s

completes :
    run_stages env none turns fresh ≡ completed (state_after (run_stages env none turns fresh))
unfolding program
completes = refl

run_stages_results_example :
    Answers [] turns (state_after (run_stages env none turns fresh)).results
run_stages_results_example =
    run_stages_results env none turns turns fresh (state_after (run_stages env none turns fresh))
      refl ((refl, tt), (tt, tt)) completes

-- A stage that would fail.
low_disk_never_runs_example :
    step env (ingest, record observed { free = some 5 }) fresh
    ≡ step env
        (
          record ingest { run = λ fs _. (stage_error "CODE" "message", fs) },
          record observed { free = some 5 },
        )
        fresh
low_disk_never_runs_example =
    low_disk_never_runs env ingest (record observed { free = some 5 }) 5
      (λ fs _. (stage_error "CODE" "message", fs)) refl (omega arith) refl fresh

reads_back :
    read_checkpoint_detailed site no_files cached_files "ingest" 1 (some "f")
    ≡ reusable (obj content)
unfolding program cached_files
reads_back = refl

-- A checkpoint that refers to a file.
reads_clip :
    read_checkpoint_detailed site some_files clip_files "ingest" 1 (some "f")
    ≡ reusable (obj clip_content)
unfolding program clip_files
reads_clip = refl

read_checkpoint-IsReused_example :
    IsReused site some_files clip_files "ingest" 1 "f" (obj clip_content)
read_checkpoint-IsReused_example =
    read_checkpoint-IsReused site some_files clip_files "ingest" 1 "f" (obj clip_content) reads_clip

abbrev score_files : Files
score_files = written site cached_files "score" 1 content 9 (obj content, [])

writes_score : write_checkpoint site no_files cached_files "score" 1 content 9 ≡ ok score_files
unfolding program
writes_score = refl

read_checkpoint-write_other_example :
    read_checkpoint_detailed site no_files score_files "ingest" 1 (some "f")
    ≡ reusable (obj content)
read_checkpoint-write_other_example =
    read_checkpoint-write_other site no_files cached_files "score" 1 content 9 score_files "ingest"
      1 "f" (obj content) refl writes_score reads_back

read_checkpoint-write_checkpoint_example :
    (files' : Files) × (write_checkpoint site no_files fresh_files "ingest" 1 content 5 ≡ ok files')
    × (read_checkpoint_detailed site no_files files' "ingest" 1 (some "f") ≡ reusable (obj content))
unfolding iter_paths get
read_checkpoint-write_checkpoint_example =
    read_checkpoint-write_checkpoint site no_files fresh_files "ingest" 1 content 5 (λ v. refl) refl
      "f" refl

run_lifecycle_example :
    run_of
      (finish_run (mark_stage (λ s. s) db "a" "asr" run_running 2 none 7) "a" "asr" 2 9)
      "a"
      "asr"
    ≡ some (run_row "a" "asr" run_done 2 7 (some 9) none)
run_lifecycle_example = (run_lifecycle (λ s. s) db "a" "asr" 2 7 9).0

abbrev second : Job
second = new_job "b" 4 url "https://example.org/w" "{}" none

none_yet : get_job db "b" ≡ none
unfolding program
none_yet = refl

create_job-IsAdded_example :
    (made : Job) × (db' : Db) × (create_job db "b" 4 url "https://example.org/w" "{}" none
      ≡ created made db')
    × (get_job db' "b" ≡ some made)
    × ((made.status ≡ pending) × (made.error ≡ none))
    × ((made.source ≡ "https://example.org/w")
        × (made.settings_json ≡ "{}")
        × (made.input_json ≡ none))
    × ((k : String) (j : Job) → get_job db k ≡ some j → get_job db' k ≡ some j)
    × (db'.stage_runs ≡ db.stage_runs)
create_job-IsAdded_example =
    create_job-IsAdded db "b" 4 url "https://example.org/w" "{}" none refl none_yet

creates :
    create_job db "b" 4 url "https://example.org/w" "{}" none
    ≡ created second (record db { jobs = job ∷ second ∷ [] })
unfolding program
creates = refl
