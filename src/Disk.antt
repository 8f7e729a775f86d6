-- ===== src/Disk.antt =====
-- Working-space estimates and the resource checks that use them
-- (storage_estimate.py, resource_guard.py).
pub mod Estimate
pub mod Url
pub mod Guard
pub mod Bounds
