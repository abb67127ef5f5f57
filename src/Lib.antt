-- ===== src/Lib.antt =====
-- The migration tool caravan moves the files of a source to a destination in batches, verifies each
-- batch, and deletes the source files of a batch once it is verified and an operator has approved.
--
-- Parts, and the files that model them (paths from the repository's root):
--
--   Prelude, Error, Config    shared helpers; the errors of src/error.rs, with each message kept as
--                             its template and the values put into it; src/config.rs.
--   Models                    src/models: the records (Models/Batch), `MigrationState` and its methods
--                             (Models/State) with the index that speeds its lookups up (Models/Index),
--                             over hash maps as association lists (Models/HashMap).
--   Plan                      src/plan: the files of the source are sorted and grouped (Plan/Batching),
--                             recorded as an immutable manifest and compared with a later plan
--                             (Plan/Manifest), and loaded one batch at a time (Plan/Loading).
--   Platform, Exec            what the program asks of the operating system and the operator, as
--                             records of operations on a world (Platform, Platform/Volume for files and
--                             directories, Platform/Host for all the rest), with laws for those that
--                             the theorems use; and the actions that change the state, use the world
--                             and may fail. A state that was changed before an error stays changed.
--                             Exec/Within has the rules for a relation that every action keeps,
--                             Exec/Yields those for the result of an action that succeeds, Exec/Quiet
--                             those for actions that keep the state valid and leave one file alone;
--                             each part has its own lemmas on that in a file Quiet. Platform/Steady
--                             says which calls are assumed to leave the file alone.
--   Transfer                  src/transfer: how a file is copied (Copier), over a temporary file
--                             (AtomicCopy), for all files of a batch (BatchCopy).
--   Conflict                  src/conflict.rs: files of a batch that stand at the destination already.
--   AtomicWrite, StateStore   src/atomic_write.rs and src/state_store.rs: a file is written beside
--                             its place and renamed; the state is kept twice, with revisions and
--                             checksums.
--   Registry                  src/migration_registry.rs and src/cli/commands/shared/app_context.rs.
--   SourceCompletion          src/source_completion: the ledger of copied files (Ledger, Completion), the
--                             hashes (Identity), the states of earlier migrations (States, Candidates,
--                             Backfill), and the files that a plan leaves out (Filter).
--   Resume                    src/resume: the next step of a batch (Planning), the destination against
--                             the manifest (Reconciliation), the permission to delete (Policy), the
--                             state it starts from (StateLoad, with src/state_discovery.rs), and
--                             the reports (Inspection, Summary, with src/transfer/summary.rs).
--   Size, Capacity, Snapshot  src/size.rs; the decision and the probe of src/capacity/mod.rs, with
--                             src/cli/commands/shared/capacity_guard.rs (Guard); the policy of
--                             src/snapshot/policy.rs, the checks of src/snapshot/validation.rs
--                             (Validation) and the loop of src/snapshot/processing.rs (Processing).
--   Verify                    src/verify.rs: the copies of a batch are compared with their sources, and
--                             (Verify/Recorded, src/cli/commands/shared/batch_ops.rs) the result is
--                             entered in the state.
--   Cleanup                   src/cleanup.rs: the deletion of the source files of one batch.
--   Prompt, Commands          the answers of src/prompt.rs, and src/cli/commands/shared: the deletion
--                             of all approved batches (Deletion), the gates before it
--                             (OperatorReview), batches with naming conflicts (Conflicts), and the
--                             state around a copy (BatchOps); src/cli/commands/transfer: the state a
--                             transfer starts from (Transfer/Setup), the plan (Transfer/Planning), the
--                             phases (Transfer), the paths of the state and of the registry
--                             (Transfer/Context), and the command as a whole (Transfer/Run). What it
--                             does to one file is in Transfer/Steady (the writing of the state),
--                             Transfer/Consented (the deletion) and Transfer/Whole.
--   Tests                     runs at concrete inputs.
--
-- The planning turns scanned files into batches, without those that the ledger names; their manifest
-- and their phases are kept in the state, which the state store writes; the phases of a transfer copy
-- and verify the batches, and the resume decisions read state and destination; the deletion phase
-- reads the manifest, asks the operator and calls the cleanup, which removes the source files.
--
-- Numbers are natural numbers; where the source saturates, wraps or fails on overflow of a `u64`, so
-- do the definitions, with the bound written out. `usize` is taken to have 64 bits. Every loop of the
-- source that is modelled runs over a list and is structural recursion; only the printing of decimal
-- digits has fuel, one more than the number, which is enough since each digit divides it by ten.
--
-- A path is the list of its components, relative paths being those of the scan, and joining is
-- appending. Two paths that differ are taken to name different files, and files are taken to stay as
-- they are while a batch is verified. Texts are lists of code points. Code that is not in the
-- repository (the file system, the clock, the terminal, blake3, the snapshot and probe backends) is a
-- parameter; what is assumed of it is a record of laws, which the tests fill for concrete worlds.
--
-- Not modelled: progress bars and printed banners, which change no state; the scan of the source; the
-- encoding as JSON; the steps of src/cli/commands/resume; the preflight checks, which with the scan
-- are arguments of the transfer; the signal handlers; the traces and the inspection of directories in
-- src/capacity/mod.rs; the filters over given hashes in src/source_completion/filter.rs, which only
-- tests call; the platform files.
pub mod Prelude
pub mod Error
pub mod Config
pub mod Models
pub mod Plan
pub mod Platform
pub mod Exec
pub mod Resume
pub mod Size
pub mod Transfer
pub mod AtomicWrite
pub mod StateStore
pub mod Registry
pub mod SourceCompletion
pub mod Conflict
pub mod Capacity
pub mod Snapshot
pub mod Verify
pub mod Cleanup
pub mod Prompt
pub mod Commands
pub mod Tests
