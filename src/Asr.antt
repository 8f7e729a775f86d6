-- ===== src/Asr.antt =====
-- pipeline/clipgauge_pipeline/asr/stage.py: speech recognition that retries with smaller batches,
-- and then on the CPU. The model is a parameter: what a transcription in batches of a size gives.
pub mod Batches
pub mod Fallback
use clipgauge.Common.{
  ℕ, zero, suc, ◌+◌, ◌/◌, max, String, Bool, true, false, ◌||◌, ◌&&◌, not, Option, none, some, List,
  [], ◌∷◌, ◌++◌, ◌==◌, ◌=s=◌, if◌then◌else◌, Result, ok, err,
}
use clipgauge.Text.Lower.{has_lower, has_any_lower}

-- What is raised: its text, and the code of an `AnalysisAudioError`.
pub record Raised : Type 0 where
  pub text : String
  pub audio_code : Option String

abbrev pub resource_terms : List String
resource_terms =
    "out of memory" ∷ "out-of-memory" ∷ "memory allocation" ∷ "cannot allocate" ∷ "bad alloc"
    ∷ "resource exhausted" ∷ "not enough memory" ∷ []

-- `_resource_error`
unfoldable pub resource_error : Raised → Bool
unfolding has_any_lower
resource_error e = has_any_lower resource_terms e.text

abbrev pub is_member : ℕ → List ℕ → Bool
is_member n [] = false
is_member n (m ∷ ms) = n == m || is_member n ms

-- The loop of `_batch_sequence`, on fuel.
unfoldable pub batches_from : ℕ → ℕ → List ℕ → Option (List ℕ)
batches_from zero current values = none
batches_from (suc fuel) current values =
    let rest = batches_from fuel (max 1 (current / 2)) (values ++ current ∷ []) in
    if is_member current values then some values else rest

unfoldable pub batch_sequence : ℕ → Option (List ℕ)
unfolding batches_from
batch_sequence initial = batches_from (suc (initial + 2)) (max 1 initial) []

pub data Substep : Type 0 where
  import_runtime audio_load model_load transcribe alignment_model_load alignment checkpoint_write :
      Substep

pub data AsrCode : Type 0 where
  resource_limit audio_load_failed runtime_missing vad_failed cpu_compute_unsupported : AsrCode
  model_load_resource_exhausted transcription_resource_exhausted import_failed : AsrCode
  model_load_failed transcription_failed alignment_failed checkpoint_write_failed : AsrCode
  gpu_fallback_requires_approval : AsrCode

abbrev pub code_of_substep : Substep → AsrCode
code_of_substep import_runtime = import_failed
code_of_substep audio_load = audio_load_failed
code_of_substep model_load = model_load_failed
code_of_substep transcribe = transcription_failed
code_of_substep alignment_model_load = alignment_failed
code_of_substep alignment = alignment_failed
code_of_substep checkpoint_write = checkpoint_write_failed

abbrev pub exhausted_code : Substep → AsrCode
exhausted_code model_load = model_load_resource_exhausted
exhausted_code _ = transcription_resource_exhausted

abbrev pub code_of_text : Raised → Substep → AsrCode
code_of_text e s =
    if has_any_lower ("dll" ∷ "shared object" ∷ "cannot import" ∷ "module named" ∷ []) e.text
    then runtime_missing
    else if has_lower "vad" e.text
    then vad_failed
    else if has_any_lower ("unsupported" ∷ "not supported" ∷ "compute type" ∷ []) e.text
    then cpu_compute_unsupported
    else if resource_error e
    then exhausted_code s
    else code_of_substep s

-- `_asr_failure_code`
unfoldable pub asr_failure_code : Raised → Substep → AsrCode
unfolding resource_error
asr_failure_code e s = elim e.audio_code [
  | some code ↦ if code =s= "WAV_TOO_LARGE" then resource_limit else audio_load_failed
  | none ↦ code_of_text e s
]

-- An entry of `attempts`, and whether it succeeded.
pub record Attempt : Type 0 where
  pub batch_size : ℕ
  pub succeeded : Bool

-- What is raised: an error of the model, or the loop's assertion.
pub data LoopError : Type 0 where
  model_error : Raised → LoopError
  assertion : LoopError

pub record Tried {ℓ} (A : Type ℓ) : Type ℓ where
  pub attempts : List Attempt
  pub result : Result LoopError A

module _ {ℓ} {A : Type ℓ} where
  abbrev pub after_attempt : Attempt → Tried A → Tried A
  after_attempt a t = record { attempts = a ∷ t.attempts; result = t.result }

  abbrev pub succeeded_with : ℕ → A → Tried A
  succeeded_with b a = record {
    attempts = record { batch_size = b; succeeded = true } ∷ [];
    result = ok a;
  }

  abbrev pub on_failure : ℕ → Raised → Tried A → Tried A
  on_failure b e rest =
      if not (resource_error e) || b == 1
      then record {
        attempts = record { batch_size = b; succeeded = false } ∷ [];
        result = err (model_error e);
      }
      else after_attempt (record { batch_size = b; succeeded = false }) rest

  abbrev pub on_transcription : ℕ → Result Raised A → Tried A → Tried A
  on_transcription b (ok a) rest = succeeded_with b a
  on_transcription b (err e) rest = on_failure b e rest

  -- The loop of `_transcribe_model`, with the last error.
  unfoldable pub try_batches : (ℕ → Result Raised A) → Option Raised → List ℕ → Tried A
  unfolding resource_error
  try_batches run none [] = record { attempts = []; result = err assertion }
  try_batches run (some e) [] = record { attempts = []; result = err (model_error e) }
  try_batches run last (b ∷ bs) =
      on_transcription b (run b) (try_batches run (raised_by (run b) last) bs)
    where
      raised_by : Result Raised A → Option Raised → Option Raised
      raised_by (ok a) old = old
      raised_by (err e) old = some e

-- `_transcribe_model`
unfoldable pub transcribe_model {ℓ} : {A : Type ℓ} → (ℕ → Result Raised A) → ℕ → Option (Tried A)
unfolding try_batches batch_sequence
transcribe_model run initial = elim (batch_sequence initial) [
  | none ↦ none
  | some sizes ↦ some (try_batches run none sizes)
]

abbrev pub gpu_batch_size : ℕ
gpu_batch_size = 8

-- The arguments of `_transcribe_with_fallback`; a model is what it transcribes.
pub record Setting {ℓ} (A : Type ℓ) : Type ℓ where
  pub run : ℕ → Result Raised A
  pub device : String
  pub compute_type : String
  pub load_cpu_model : Result Raised (ℕ → Result Raised A)
  pub allow_cpu_fallback : Bool
  pub cpu_batch_size : ℕ
  pub cpu_compute_type : String

pub record Recognised {ℓ} (A : Type ℓ) : Type ℓ where
  pub transcript : A
  pub on_device : String
  pub with_compute_type : String

-- Every error is a `StageError` with a code, and marked as retryable.
pub record Recognition {ℓ} (A : Type ℓ) : Type ℓ where
  pub attempts : List Attempt
  pub result : Result AsrCode (Recognised A)

-- What `except Exception` sees; an assertion has no text.
abbrev pub raised_of : LoopError → Raised
raised_of (model_error e) = e
raised_of assertion = record { text = ""; audio_code = none }

module _ {ℓ} {A : Type ℓ} where
  abbrev pub recognise : List Attempt → Tried A → String → String → Recognition A
  recognise before t device compute_type = elim t.result [
    | ok a ↦ record {
      attempts = before ++ t.attempts;
      result = ok (record { transcript = a; on_device = device; with_compute_type = compute_type });
    }
    | err e ↦ record {
      attempts = before ++ t.attempts;
      result = err (asr_failure_code (raised_of e) transcribe);
    }
  ]

  abbrev pub with_tried :
      Option (Tried A) → (Tried A → Option (Recognition A)) → Option (Recognition A)
  with_tried none next = none
  with_tried (some t) next = next t

  abbrev pub on_cpu_model :
      Setting A → List Attempt → Result Raised (ℕ → Result Raised A) → Option (Recognition A)
  on_cpu_model s before (err e) =
      some (record { attempts = before; result = err (asr_failure_code e model_load) })
  on_cpu_model s before (ok run) =
      with_tried (transcribe_model run s.cpu_batch_size)
        λ t. some (recognise before t "cpu" s.cpu_compute_type)

  -- Behind a failure on the device of the setting.
  abbrev pub fall_back_on_cpu : Setting A → Tried A → Option (Recognition A)
  fall_back_on_cpu s t =
      if s.device =s= "cpu"
      then some (recognise [] t s.device s.compute_type)
      else if not s.allow_cpu_fallback
      then some (record { attempts = t.attempts; result = err gpu_fallback_requires_approval })
      else on_cpu_model s t.attempts s.load_cpu_model

  abbrev pub conclude_tried : Setting A → Tried A → Option (Recognition A)
  conclude_tried s t = elim t.result [
    | ok a ↦ some (recognise [] t s.device s.compute_type)
    | err e ↦ fall_back_on_cpu s t
  ]

  unfoldable pub transcribe_with_fallback : Setting A → Option (Recognition A)
  unfolding transcribe_model asr_failure_code
  transcribe_with_fallback s =
      with_tried
        (transcribe_model s.run (if s.device =s= "cpu" then s.cpu_batch_size else gpu_batch_size))
        (conclude_tried s)
