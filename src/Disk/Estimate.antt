-- ===== src/Disk/Estimate.antt =====
-- pipeline/clipgauge_pipeline/storage_estimate.py. Sizes are numbers of bytes, durations are
-- milliseconds. The code's float products `size * 0.5` and `bytes * 0.20` are exact integers after
-- `math.ceil` below 2^53 bytes, and are written as integer divisions that round up.
use clipgauge.Common.{ℕ, ◌+◌, ◌-◌, ◌*◌, ◌/◌, max, String, Option, none, some, ltb, if◌then◌else◌}

abbrev pub min_safe_bytes : ℕ
min_safe_bytes = 1073741824

abbrev pub audio_bytes_per_second : ℕ
audio_bytes_per_second = 32000

abbrev pub checkpoint_size : ℕ
checkpoint_size = 268435456

abbrev pub min_render_bytes : ℕ
min_render_bytes = 268435456

abbrev pub min_safety_bytes : ℕ
min_safety_bytes = 536870912

abbrev pub cached_score_min_safe_bytes : ℕ
cached_score_min_safe_bytes = 268435456

abbrev pub url_fallback_bytes_per_second : ℕ
url_fallback_bytes_per_second = 4194304

abbrev pub url_fallback_min_source_bytes : ℕ
url_fallback_min_source_bytes = 536870912

-- The dictionary that every estimator returns; `none` is an absent key or `None`.
pub record Estimate : Type 0 where
  pub source_bytes : Option ℕ
  pub source_copy_bytes : Option ℕ
  pub duration_ms : Option ℕ
  pub temporary_audio_bytes : Option ℕ
  pub checkpoint_bytes : Option ℕ
  pub render_bytes : Option ℕ
  pub safety_margin_bytes : Option ℕ
  pub required_bytes : Option ℕ
  pub source_size_confidence : Option String

abbrev pub empty_estimate : Estimate
empty_estimate = record {
  source_bytes = none;
  source_copy_bytes = none;
  duration_ms = none;
  temporary_audio_bytes = none;
  checkpoint_bytes = none;
  render_bytes = none;
  safety_margin_bytes = none;
  required_bytes = none;
  source_size_confidence = none;
}

-- `value or default` on a number that may be missing: 0 and `None` give the default.
abbrev pub or_else : Option ℕ → ℕ → ℕ
or_else none d = d
or_else (some n) d = if ltb 0 n then n else d

-- `max(MIN_SAFETY_BYTES, math.ceil(working_bytes * SAFETY_FRACTION))`
unfoldable pub safety_margin : ℕ → ℕ
safety_margin working = max min_safety_bytes ((working + 4) / 5)

audio_size : Option ℕ → ℕ
audio_size none = 0
audio_size (some ms) = (ms * audio_bytes_per_second + 999) / 1000

abbrev pub copy_size : ℕ → Option ℕ → ℕ
copy_size size none = size
copy_size size (some n) = n

unfoldable pub for_source : ℕ → Option ℕ → Option ℕ → Estimate
unfolding safety_margin audio_size
for_source size duration source_copy =
    let copy = copy_size size source_copy in
    let audio = audio_size duration in
    let render = max min_render_bytes ((size + 1) / 2) in
    let working = copy + audio + checkpoint_size + render in
    let safety = safety_margin working in
    record {
      source_bytes = some size;
      source_copy_bytes = some copy;
      duration_ms = duration;
      temporary_audio_bytes = some audio;
      checkpoint_bytes = some checkpoint_size;
      render_bytes = some render;
      safety_margin_bytes = some safety;
      required_bytes = some (working + safety);
      source_size_confidence = none;
    }

unfoldable pub for_cached_score : Estimate
for_cached_score =
    let working = cached_score_min_safe_bytes / 2 in
    let safety = cached_score_min_safe_bytes - working in
    record {
      source_bytes = some 0;
      source_copy_bytes = some 0;
      duration_ms = none;
      temporary_audio_bytes = some 0;
      checkpoint_bytes = some working;
      render_bytes = some 0;
      safety_margin_bytes = some safety;
      required_bytes = some (working + safety);
      source_size_confidence = none;
    }

unfoldable pub positive_number : Option ℕ → Option ℕ
positive_number none = none
positive_number (some n) = if ltb 0 n then some n else none
