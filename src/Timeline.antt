-- ===== src/Timeline.antt =====
-- Removing dead space from a clip (pipeline/clipgauge_pipeline/edits/timeline.py). The source's times
-- are seconds with three decimals; here they are milliseconds, on which `round(…, 3)` does nothing.
pub mod Cuts
pub mod Ranges
pub mod Remap
