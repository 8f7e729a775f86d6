-- ===== src/Disk/Bounds.antt =====
-- What the estimates promise: working room, a safety margin, and stages that never need more than
-- the whole run.
use clipgauge.Common.{
  ℕ, ◌+◌, ◌*◌, ◌/◌, ◌^◌, ◌≤◌, ◌<◌, String, ◌≡◌, ◌⊎◌, ◌↔◌, Bool, true, false, Option, none, some,
  arith,
}
use clipgauge.Disk.Estimate.{
  Estimate, for_source, safety_margin, or_else, copy_size, min_safe_bytes, checkpoint_size,
  url_fallback_min_source_bytes,
}
use clipgauge.Disk.Url.{Metadata, for_url_metadata, metadata_size}
use clipgauge.Disk.Guard.{
  ActiveStage, ingest, asr, render, other_stage, Source, estimated, for_stage,
  asr_headroom_decision, classify_abrupt_exit, disk_headroom_decision, required_for,
  asr_resource_headroom_low, cuda_native_crash, windows_access_violation, cpu_asr_headroom_bytes,
}

abbrev pub needed : Estimate → ℕ
needed e = or_else e.required_bytes 0

-- The room asked for a source of `size` bytes holds a copy of it, half of it for the rendered clips
-- and the checkpoints, and a fifth of all that on top.
pub for_source-covers :
    (size : ℕ) (duration copy : Option ℕ)
    → 6 * (copy_size size copy + checkpoint_size + size / 2)
      ≤ 5 * needed (for_source size duration copy)
unfolding for_source
for_source-covers size duration copy = ground arith

-- Whatever is known of the source, speech recognition is checked against exactly the general
-- minimum of free space.
pub required_for-asr : (s : Source) → required_for false (some asr) s ≡ min_safe_bytes
unfolding required_for for_stage safety_margin
required_for-asr s = ground arith

-- The check before rendering asks for no more than the check of the whole run did.
pub required_for-render_le :
    (size : ℕ) (duration copy : Option ℕ)
    → let s = estimated (for_source size duration copy) in
      required_for false (some render) s ≤ required_for false none s
unfolding required_for for_stage for_source safety_margin
required_for-render_le size duration copy = ground arith

-- Where the free space can be measured, an estimate is given and the run is not one of scores only: a
-- stage that the disk check lets through has the general minimum of free space, and rendering has
-- room for the clips that it has left to write, the checkpoints and a fifth of both.
pub disk_headroom-passed :
    (free : ℕ) (e : Estimate) (stage : Option ActiveStage)
    → (disk_headroom_decision (some free) (estimated e) false stage).blocked ≡ false
    → (min_safe_bytes ≤ free)
      × (stage ≡ some render → 6 * (or_else e.render_bytes 0 + checkpoint_size) ≤ 5 * free)
unfolding disk_headroom_decision for_stage safety_margin
disk_headroom-passed free e none h = ground arith
disk_headroom-passed free e (some ingest) h = ground arith
disk_headroom-passed free e (some asr) h = ground arith
disk_headroom-passed free e (some render) h = ground arith
disk_headroom-passed free e (some other_stage) h = ground arith

-- The speech model is loaded only if each memory reading that is there leaves the headroom of the
-- device, and a refusal names its code.
pub asr_headroom_sound :
    (ram commit : ℕ) (device : String)
    → let d = asr_headroom_decision (some ram) (some commit) device in
      ((d.blocked ≡ false) ↔ ((d.required_bytes ≤ ram) × (d.required_bytes ≤ commit)))
      × (cpu_asr_headroom_bytes ≤ d.required_bytes)
      × (d.blocked ≡ true → d.code ≡ some asr_resource_headroom_low)
unfolding asr_headroom_decision
asr_headroom_sound ram commit device =
    ((λ h. ground arith, λ h. ground arith), ground arith, ground arith)

-- Resuming on the CPU is offered only after speech recognition on CUDA died for another reason than
-- exhausted resources, which is then reported as a CUDA crash or as an access violation; the exit
-- status shown fits 32 bits.
pub classify_abrupt_exit_sound :
    (is_asr is_cuda is_resource : Bool) (raw : Option ℕ)
    → let r = classify_abrupt_exit is_asr is_cuda is_resource raw in
      (r.allow_cpu_resume ≡ true
        → (r.code ≡ cuda_native_crash) ⊎ (r.code ≡ windows_access_violation))
      × (r.code ≡ cuda_native_crash → r.allow_cpu_resume ≡ true)
      × (or_else r.exit_code_decimal 0 < 2 ^ 32)
unfolding classify_abrupt_exit
classify_abrupt_exit_sound is_asr is_cuda is_resource raw =
    (ground arith, ground arith, ground arith)

-- A remote source whose size cannot be found is taken for at least 512 MiB.
pub for_url_metadata-unsized :
    (m : Metadata)
    → (metadata_size m).0 ≡ none
    → url_fallback_min_source_bytes ≤ or_else (for_url_metadata m).source_bytes 0
unfolding for_url_metadata for_source
for_url_metadata-unsized m h = ground (arith, h)
