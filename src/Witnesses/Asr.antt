-- ===== src/Witnesses/Asr.antt =====
-- The theorems about speech recognition, at concrete inputs.
use clipgauge.Common.{
  ℕ, ◌≡◌, String, true, ◌||◌, none, some, List, max, Result, ok, err, ◌==◌, if◌then◌else◌,
}
use clipgauge.Asr.{Raised, Tried, transcribe_model, Setting, transcribe_with_fallback}
use clipgauge.Asr.Batches.{Halves}
use clipgauge.Asr.Fallback.{
  Explained, transcribe_model-Explained, IsJustified, transcribe_with_fallback-IsJustified,
}

-- The memory is enough for two at a time.
abbrev small : ℕ → Result Raised String
small b =
    if b == 8 || b == 4
    then err (record { text = "CUDA out of memory"; audio_code = none })
    else ok "hello"

transcribe_model-Explained_example :
    (sizes : List ℕ) × (t : Tried String) × (transcribe_model small 8 ≡ some t)
    × Halves (max 1 8) sizes
    × Explained small sizes t
transcribe_model-Explained_example = transcribe_model-Explained small 8

abbrev broken : ℕ → Result Raised String
broken b = err (record { text = "CUDA driver failure"; audio_code = none })

abbrev setting : Setting String
setting = record {
  run = broken;
  device = "cuda";
  compute_type = "float16";
  load_cpu_model = ok small;
  allow_cpu_fallback = true;
  cpu_batch_size = 2;
  cpu_compute_type = "int8";
}

transcribe_with_fallback-IsJustified_example :
    IsJustified setting (transcribe_with_fallback setting)
transcribe_with_fallback-IsJustified_example = transcribe_with_fallback-IsJustified setting
