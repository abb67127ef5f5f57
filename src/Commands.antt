-- ===== src/Commands.antt =====
-- src/cli/commands/: the phases of a run, over the components.
pub mod OperatorReview
pub mod Conflicts
pub mod Deletion
pub mod BatchOps
pub mod Transfer
