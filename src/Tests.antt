-- ===== src/Tests.antt =====
-- Runs at concrete inputs: a source of three files, and a state with one batch.
pub mod Data
pub mod Planning
pub mod States
pub mod Deleting
pub mod Policies
pub mod Verifying
pub mod Disk
pub mod Copying
pub mod Stores
pub mod Skipping
pub mod Snapshots
pub mod Running
