-- ===== src/SourceCompletion.antt =====
-- src/source_completion: the ledger of the files that were copied, kept beside the source
-- (ledger.rs), and the hashes it is made of (identity.rs). Progress is not modelled.
pub mod Ledger
pub mod Identity
pub mod Completion
pub mod Quiet
pub mod States
pub mod Candidates
pub mod Backfill
pub mod Filter
