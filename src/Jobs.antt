-- ===== src/Jobs.antt =====
-- The job store, the stage checkpoints and the stage runner (pipeline/clipgauge_pipeline/jobs).
pub mod Store
pub mod Artifacts
pub mod Checkpoint
pub mod Runner
