-- ===== src/Disk/Guard.antt =====
-- Estimates by stage (`for_stage` of pipeline/clipgauge_pipeline/storage_estimate.py) and the
-- checks of pipeline/clipgauge_pipeline/resource_guard.py. Messages for the user, which only
-- print the numbers of a decision, are not modelled.
use clipgauge.Common.{
  ℕ, ◌+◌, ◌%◌, ◌^◌, max, min, String, Bool, true, false, ◌&&◌, not, Option, none, some, ltb, ◌==◌,
  ◌=s=◌, if◌then◌else◌,
}
use clipgauge.Disk.Estimate.{
  Estimate, empty_estimate, positive_number, for_source, for_cached_score, or_else, safety_margin,
  min_safe_bytes, checkpoint_size, min_render_bytes, cached_score_min_safe_bytes,
}
use clipgauge.Disk.Url.{for_url_metadata, no_metadata}

-- The stage's name once `strip().lower()` is taken.
pub data ActiveStage : Type 0 where
  ingest asr render other_stage : ActiveStage

abbrev pub active_stage : String → ActiveStage
active_stage s =
    if s =s= "ingest"
    then ingest
    else if s =s= "asr"
    then asr
    else if s =s= "render"
    then render
    else other_stage

abbrev pub estimate_or : Estimate → Option Estimate → Estimate
estimate_or d none = d
estimate_or d (some e) = e

-- The estimate of what one stage still needs, from the render bytes it has left to write.
stage_estimate : Estimate → ℕ → ℕ → Estimate
unfolding safety_margin positive_number
stage_estimate source render_size working = record {
  source_bytes = positive_number source.source_bytes;
  source_copy_bytes = some 0;
  duration_ms = source.duration_ms;
  temporary_audio_bytes = some 0;
  checkpoint_bytes = some checkpoint_size;
  render_bytes = some render_size;
  safety_margin_bytes = some (safety_margin working);
  required_bytes = some (working + safety_margin working);
  source_size_confidence = source.source_size_confidence;
}

unfoldable pub for_stage : ActiveStage → Option Estimate → Estimate
unfolding stage_estimate for_url_metadata
for_stage ingest e = estimate_or (for_url_metadata no_metadata) e
for_stage asr e = stage_estimate (estimate_or empty_estimate e) 0 checkpoint_size
for_stage render e =
    let source = estimate_or empty_estimate e in
    let size = max min_render_bytes (or_else source.render_bytes min_render_bytes) in
    stage_estimate source size (checkpoint_size + size)
for_stage other_stage e = estimate_or empty_estimate e

abbrev pub gpu_asr_headroom_bytes : ℕ
gpu_asr_headroom_bytes = 6442450944

abbrev pub cpu_asr_headroom_bytes : ℕ
cpu_asr_headroom_bytes = 3221225472

pub data Code : Type 0 where
  asr_resource_headroom_low disk_space_low : Code

pub record HeadroomDecision : Type 0 where
  pub blocked : Bool
  pub code : Option Code
  pub required_bytes : ℕ
  pub available_bytes : Option ℕ
  pub available_ram_bytes : Option ℕ
  pub available_commit_bytes : Option ℕ
  pub selected_device : String

-- `min(values) if values else None` over the readings that are there
abbrev pub least : Option ℕ → Option ℕ → Option ℕ
least none c = c
least (some r) none = some r
least (some r) (some c) = some (min r c)

abbrev pub short_of : Option ℕ → ℕ → Bool
short_of none required = false
short_of (some n) required = ltb n required

-- The readings are those of `_positive_int`: `none` for what is missing, malformed or negative.
unfoldable pub asr_headroom_decision : Option ℕ → Option ℕ → String → HeadroomDecision
asr_headroom_decision ram commit device =
    let available = least ram commit in
    let required : ℕ =
      if device =s= "cuda" then gpu_asr_headroom_bytes else cpu_asr_headroom_bytes in
    let blocked = short_of available required in
    record {
      blocked = blocked;
      code = if blocked then some asr_resource_headroom_low else none;
      required_bytes = required;
      available_bytes = available;
      available_ram_bytes = ram;
      available_commit_bytes = commit;
      selected_device = device;
    }

pub data ExitCode : Type 0 where
  windows_access_violation pipeline_resource_exhausted cuda_native_crash asr_native_crash
        pipeline_native_crash :
      ExitCode

pub record AbruptExit : Type 0 where
  pub code : ExitCode
  pub exit_code_decimal : Option ℕ
  pub allow_cpu_resume : Bool

-- `int(raw) & 0xFFFFFFFF`, for a status given as its two's complement in 64 bits
abbrev pub unsigned : Option ℕ → Option ℕ
unsigned none = none
unsigned (some n) = some (n % 2 ^ 32)

abbrev is_access_violation : Option ℕ → Bool
is_access_violation none = false
is_access_violation (some n) = n == 0xC0000005

-- `is_asr`, `is_cuda` and `is_resource` are the three text searches that the code begins with.
unfoldable pub classify_abrupt_exit : Bool → Bool → Bool → Option ℕ → AbruptExit
classify_abrupt_exit is_asr is_cuda is_resource raw =
    let status = unsigned raw in
    record {
      code =
          if is_access_violation status
          then windows_access_violation
          else if is_resource
          then pipeline_resource_exhausted
          else if is_asr && is_cuda
          then cuda_native_crash
          else if is_asr
          then asr_native_crash
          else pipeline_native_crash;
      exit_code_decimal = status;
      allow_cpu_resume = is_asr && is_cuda && not is_resource;
    }

pub record DiskDecision : Type 0 where
  pub blocked : Bool
  pub code : Option Code
  pub required_bytes : ℕ
  pub available_bytes : Option ℕ

-- What the code finds out about the source: an estimate at hand, a local file with the size that
-- `stat` gives (0 where it fails), or neither.
pub data Source : Type 0 where
  estimated : Estimate → Source
  local_file : ℕ → Source
  remote : Source

chosen_estimate : Bool → Source → Estimate
unfolding for_cached_score for_source for_url_metadata
chosen_estimate true s = for_cached_score
chosen_estimate false (estimated e) = e
chosen_estimate false (local_file size) = for_source size none none
chosen_estimate false remote = for_url_metadata no_metadata

stage_or_all : Bool → Option ActiveStage → Estimate → Estimate
unfolding for_stage
stage_or_all false (some stage) e = for_stage stage (some e)
stage_or_all _ _ e = e

minimum : Bool → ℕ
minimum true = cached_score_min_safe_bytes
minimum false = min_safe_bytes

unfoldable pub required_for : Bool → Option ActiveStage → Source → ℕ
unfolding chosen_estimate stage_or_all minimum
required_for score_only stage source =
    let chosen = stage_or_all score_only stage (chosen_estimate score_only source) in
    max (minimum score_only) (or_else chosen.required_bytes 0)

-- `available` is `none` where the free space could not be measured.
unfoldable pub disk_headroom_decision : Option ℕ → Source → Bool → Option ActiveStage → DiskDecision
unfolding required_for
disk_headroom_decision none source score_only stage = record {
  blocked = false;
  code = none;
  required_bytes = 0;
  available_bytes = none;
}
disk_headroom_decision (some free) source score_only stage =
    let required = required_for score_only stage source in
    let blocked = ltb free required in
    record {
      blocked = blocked;
      code = if blocked then some disk_space_low else none;
      required_bytes = required;
      available_bytes = some free;
    }
