-- ===== src/Witnesses.antt =====
-- Tests, and the theorems at inputs that meet their hypotheses.
mod Samples
mod Jobs
mod Disk
mod Timeline
mod Collections
mod Titles
mod Transfer
mod Downloads
mod Asr
mod Storage
mod Captions
mod Providers
mod Events
mod Protocol
