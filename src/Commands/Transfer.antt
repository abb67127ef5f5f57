-- ===== src/Commands/Transfer.antt =====
-- src/cli/commands/transfer/: the transfer of a plan, phase by phase (batch_handlers.rs,
-- copy_phase.rs, verify_phase.rs, delete_phase.rs). Banners and progress are not modelled, and the
-- count of processed batches does not wrap.
pub mod Setup
pub mod Quiet
pub mod Context
pub mod Planning
pub mod Run
pub mod Steady
pub mod Consented
pub mod Whole
use vibe_caravan.Prelude.{
  ℕ, ◌+◌, Bool, true, false, ◌&&◌, not, Option, none, some, List, [], ◌∷◌, Text, FilePath, is_empty,
  if◌then◌else◌,
}
use vibe_caravan.Error.{Result, ok, err, CaravanError, Arg, message}
use vibe_caravan.Config.{ConflictPolicy, TransferConfig}
use vibe_caravan.Models.Batch.{Batch, BatchPhase, BatchState, MigrationPhase}
use vibe_caravan.Models.State.{MigrationState, batch, upsert_batch}
use vibe_caravan.Plan.Batching.{PlanningSnapshot}
use vibe_caravan.Platform.Host.{Host, Json}
use vibe_caravan.Exec.{Sys, Exec, pure, lift, gets, ask, attempt, modify, ◌>>=◌, ◌>>◌}
use vibe_caravan.Transfer.{LocalFsCopyBackend}
use vibe_caravan.Capacity.Guard.{ensure_destination_capacity_for_batch}
use vibe_caravan.Conflict.{ConflictReport, detect_batch_conflicts}
use vibe_caravan.SourceCompletion.Ledger.{SourceCompletionLedger}
use vibe_caravan.SourceCompletion.Identity.{files_in}
use vibe_caravan.SourceCompletion.Completion.{mark_batch_completed}
use vibe_caravan.Resume.Reconciliation.{ReconciliationResult, reconcile_batch_destination}
use vibe_caravan.Verify.Recorded.{verify_batch_with_state_updates}
use vibe_caravan.Commands.Conflicts.{non_conflicting_subset_batch, mark_batch_failed_for_conflicts}
use vibe_caravan.Commands.Deletion.{persist_state, approve_and_delete}
use vibe_caravan.Commands.OperatorReview.{ensure_no_operator_review_blocks}
use vibe_caravan.Commands.BatchOps.{
  disappeared, on_error, copy_batch_with_state_updates, handle_verification_error,
}

unfoldable pub effective_conflict_policy : TransferConfig → ConflictPolicy
effective_conflict_policy config =
    if config.skip_conflicts then ConflictPolicy.skip_file else config.conflict_policy

-- `planned_batch_state`.
abbrev pub planned_batch_state : Text → BatchState
planned_batch_state id = record {
  batch_id = id;
  phase = BatchPhase.planned;
  verification_passed = false;
  approved_for_delete = false;
  deleted = false;
}

abbrev pub or_planned : Option BatchState → Text → BatchState
or_planned none id = planned_batch_state id
or_planned (some b) id = b

abbrev pub requires_conflict_check : BatchPhase → Bool
requires_conflict_check BatchPhase.copy_started = false
requires_conflict_check _ = true

-- The copy is done, by the phase of the record.
abbrev pub is_copied : BatchPhase → Bool
is_copied BatchPhase.copy_completed = true
is_copied BatchPhase.verify_completed = true
is_copied BatchPhase.approved_for_delete = true
is_copied BatchPhase.delete_completed = true
is_copied BatchPhase.snapshot_completed = true
is_copied _ = false

abbrev pub is_verified : BatchPhase → Bool
is_verified BatchPhase.verify_completed = true
is_verified BatchPhase.approved_for_delete = true
is_verified BatchPhase.delete_completed = true
is_verified BatchPhase.snapshot_completed = true
is_verified _ = false

abbrev pub is_failed : BatchPhase → Bool
is_failed BatchPhase.failed = true
is_failed _ = false

abbrev pub missing_before_verification : Text → CaravanError
missing_before_verification id =
    CaravanError.state_corrupt
      (message "missing batch state for {} before verification" (Arg.word id ∷ []))

abbrev pub set_phase : MigrationPhase → MigrationState → MigrationState
set_phase phase s = record s { migration_phase = phase }

module _ {W : Type 0} (host : Host W) (ledger : Json SourceCompletionLedger)
    (config : TransferConfig) (backend : LocalFsCopyBackend) where
  -- `mark_transfer_batch_failed_for_conflicts`.
  unfoldable pub mark_failed_for_conflicts : Batch → ConflictReport → ℕ → Exec W (Unit {0})
  unfolding mark_batch_failed_for_conflicts persist_state
  mark_failed_for_conflicts bt report copied = do
    mark_batch_failed_for_conflicts host.env (λ id. ok (planned_batch_state id)) bt report copied
    persist_state host.env

  unfoldable pub copy_updating : Batch → Exec W (Unit {0})
  unfolding copy_batch_with_state_updates
  copy_updating bt =
      copy_batch_with_state_updates host backend true disappeared bt config.source config.dest

  unfoldable pub copy_subset : Batch → BatchState → ConflictReport → Batch → Exec W (Unit {0})
  unfolding copy_updating mark_failed_for_conflicts
  copy_subset bt b report subset =
      if is_empty subset.files
      then mark_failed_for_conflicts bt report 0
      else modify (upsert_batch b) >>= λ entered.
          copy_updating subset >>= λ copied. mark_failed_for_conflicts bt report subset.file_count

  unfoldable pub skip_conflicting :
      Batch → BatchState → ConflictReport → ConflictPolicy → Exec W (Unit {0})
  unfolding copy_subset non_conflicting_subset_batch
  skip_conflicting bt b report ConflictPolicy.skip_batch = mark_failed_for_conflicts bt report 0
  skip_conflicting bt b report ConflictPolicy.skip_file =
      copy_subset bt b report (non_conflicting_subset_batch bt config.dest report)

  -- What follows where there are no conflicts.
  unfoldable pub copy_whole : Batch → BatchState → Exec W (Unit {0})
  unfolding copy_updating mark_batch_completed
  copy_whole bt b = do
    modify (upsert_batch b)
    copy_updating bt
    mode ← gets (λ s. s.mode)
    mark_batch_completed host ledger config.source mode bt

  unfoldable pub copy_unless_conflicts : Batch → BatchState → ConflictReport → Exec W (Unit {0})
  unfolding skip_conflicting copy_whole effective_conflict_policy
  copy_unless_conflicts bt b report =
      if report.has_conflicts
      then skip_conflicting bt b report (effective_conflict_policy config)
      else copy_whole bt b

  unfoldable pub copy_checked : Batch → BatchState → Exec W (Unit {0})
  unfolding copy_unless_conflicts detect_batch_conflicts
  copy_checked bt b =
      if requires_conflict_check b.phase
      then ask (detect_batch_conflicts host bt config.dest)
        >>= (λ report. copy_unless_conflicts bt b report)
      else copy_whole bt b

  unfoldable pub copy_single_batch : Batch → Exec W (Unit {0})
  unfolding copy_checked ensure_destination_capacity_for_batch
  copy_single_batch bt = do
    found ← gets (λ s. batch s bt.id)
    ensure_destination_capacity_for_batch host config.dest bt
    copy_checked bt (or_planned found bt.id)

  -- A verification reads the files as they are when it starts.
  abbrev pub verify_updating : Batch → Exec W (Unit {0})
  unfolding verify_batch_with_state_updates
  verify_updating bt s =
      verify_batch_with_state_updates (files_in host s.world) host.env.persist
        missing_before_verification bt config.source config.dest s

  unfoldable pub verify_single_batch : Batch → Exec W (Unit {0})
  unfolding verify_updating handle_verification_error
  verify_single_batch bt s =
      on_error
        (λ e. gets (λ t. t.mode) >>= λ mode.
          handle_verification_error host ledger bt config.source mode e)
        (verify_updating bt s)

  -- The body of the loop for a batch whose copy is recorded as done.
  unfoldable pub copy_unless_ready : Batch → ReconciliationResult → Exec W (Unit {0})
  unfolding copy_single_batch
  copy_unless_ready bt recon =
      if recon.all_destination_files_ready then pure tt else copy_single_batch bt

  -- The body of the loop, with what it adds to the count.
  unfoldable pub copy_step : Batch → Option BatchState → Exec W ℕ
  unfolding copy_unless_ready copy_single_batch reconcile_batch_destination
  copy_step bt none = copy_single_batch bt >>= λ copied. pure 0
  copy_step bt (some b) =
      if b.deleted
      then pure 1
      else if is_copied b.phase
      then ask (λ w. reconcile_batch_destination (host.metadata w) bt config.dest)
        >>= (λ recon. copy_unless_ready bt recon >>= λ copied. pure 0)
      else copy_single_batch bt >>= λ copied. pure 0

  unfoldable pub copy_batches : List Batch → ℕ → Exec W ℕ
  unfolding copy_step
  copy_batches [] processed = pure processed
  copy_batches (bt ∷ rest) processed = do
    attempt host.env.check_interrupt
    found ← gets (λ s. batch s bt.id)
    n ← copy_step bt found
    copy_batches rest (processed + n)

  unfoldable pub run_copy_phase : PlanningSnapshot → Exec W ℕ
  unfolding copy_batches persist_state
  run_copy_phase plan = do
    modify (set_phase MigrationPhase.copying)
    persist_state host.env
    copy_batches plan.batches 0

  unfoldable pub verify_step : Batch → Option BatchState → Exec W ℕ
  unfolding verify_single_batch
  verify_step bt none = verify_single_batch bt >>= λ verified. pure 1
  verify_step bt (some b) =
      if b.deleted
      then pure 0
      else if is_failed b.phase
      then pure 0
      else if b.verification_passed && is_verified b.phase
      then pure 1
      else verify_single_batch bt >>= λ verified. pure 1

  unfoldable pub verify_batches : List Batch → ℕ → Exec W ℕ
  unfolding verify_step
  verify_batches [] processed = pure processed
  verify_batches (bt ∷ rest) processed = do
    attempt host.env.check_interrupt
    found ← gets (λ s. batch s bt.id)
    n ← verify_step bt found
    verify_batches rest (processed + n)

  unfoldable pub run_verify_phase : PlanningSnapshot → Exec W ℕ
  unfolding verify_batches persist_state
  run_verify_phase plan = do
    modify (set_phase MigrationPhase.verifying)
    persist_state host.env
    verify_batches plan.batches 0

  unfoldable pub run_delete_phase : Exec W (Unit {0})
  unfolding approve_and_delete ensure_no_operator_review_blocks
  run_delete_phase = do
    attempt host.env.check_interrupt
    checked ← gets ensure_no_operator_review_blocks
    lift checked
    approve_and_delete host.env config.source "execute_transfer" config.interactive
