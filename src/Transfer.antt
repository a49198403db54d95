-- ===== src/Transfer.antt =====
-- server/src/transfer: the media transfer subsystem.
pub mod Ranges
pub mod Download
pub mod Parts
pub mod RangeUpload
pub mod Sequential
pub mod Source
pub mod Tasks
pub mod Worker
pub mod Transitions
