-- ===== src/Resume.antt =====
-- src/resume/: what a resumed run does next with each batch.
pub mod Reconciliation
pub mod Planning
pub mod Policy
pub mod Inspection
pub mod Summary
pub mod StateLoad
