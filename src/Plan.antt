-- ===== src/Plan.antt =====
-- src/plan/: grouping the scanned files into batches, and comparing a plan with the persisted one.
pub mod Batching
pub mod Manifest
pub mod Loading
