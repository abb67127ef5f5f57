-- ===== src/Commands/Transfer/Run.antt =====
-- src/cli/commands/transfer/mod.rs: the phases of a transfer, and the command around them.
use vibe_caravan.Prelude.{ℕ, ◌+◌, List, Text, FilePath, ltb, if◌then◌else◌}
use vibe_caravan.Error.{Result, ok, err}
use vibe_caravan.Config.{TransferConfig}
use vibe_caravan.Models.Batch.{FileEntry, MigrationPhase}
use vibe_caravan.Plan.Batching.{PlanningSnapshot}
use vibe_caravan.Platform.Host.{Host, Json}
use vibe_caravan.Exec.{Sys, Exec, pure, gets, modify, ◌>>=◌, ◌>>◌}
use vibe_caravan.Registry.{MigrationRegistry, MigrationStatus}
use vibe_caravan.Resume.Summary.{TransferExecutionSummary, summarize_transfer_execution}
use vibe_caravan.Snapshot.{SnapshotBackend}
use vibe_caravan.Snapshot.Processing.{process_pending_snapshots}
use vibe_caravan.SourceCompletion.Ledger.{SourceCompletionLedger}
use vibe_caravan.StateStore.{StateJson}
use vibe_caravan.Transfer.{LocalFsCopyBackend, with_transfer_config}
use vibe_caravan.Commands.Deletion.{persist_state}
use vibe_caravan.Commands.Transfer.{set_phase, run_copy_phase, run_verify_phase, run_delete_phase}
use vibe_caravan.Commands.Transfer.Setup.{mode_name, seed_state_batches}
use vibe_caravan.Commands.Transfer.Context.{
  default_registry_path, persist_migration_status, register_migration, generate_state_filename,
  state_file_in_source, transfer_host,
}
use vibe_caravan.Commands.Transfer.Planning.{prepare_transfer}

abbrev pub final_phase : TransferExecutionSummary → MigrationPhase
final_phase summary =
    if ltb 0 summary.pending_delete_batches
    then MigrationPhase.awaiting_deletion
    else MigrationPhase.completed

abbrev pub final_status : TransferExecutionSummary → MigrationStatus
final_status summary =
    if ltb 0 summary.pending_delete_batches
    then MigrationStatus.awaiting_deletion
    else MigrationStatus.completed

module _ {W : Type 0} (host : Host W) where
  module _ (ledger : Json SourceCompletionLedger) (registry : Json MigrationRegistry)
      (registry_path : FilePath) (config : TransferConfig) (backend : LocalFsCopyBackend)
      (snapshots : SnapshotBackend W) where
    -- From the seeding on, as far as the deletion.
    unfoldable pub run_to_deletion : ℕ → PlanningSnapshot → Exec W ℕ
    unfolding run_copy_phase run_verify_phase seed_state_batches persist_state
        persist_migration_status
    run_to_deletion id plan = do
      modify (seed_state_batches plan)
      persist_state host.env
      copied ← run_copy_phase host ledger config backend plan
      persist_migration_status host registry registry_path id MigrationStatus.verifying
      verified ← run_verify_phase host ledger config backend plan
      modify (set_phase MigrationPhase.awaiting_deletion)
      persist_state host.env
      persist_migration_status host registry registry_path id MigrationStatus.awaiting_deletion
      pure (copied + verified)

    -- From the deletion on.
    unfoldable pub run_from_deletion : ℕ → Exec W TransferExecutionSummary
    unfolding run_delete_phase process_pending_snapshots summarize_transfer_execution persist_state
    run_from_deletion processed = do
      run_delete_phase host ledger config backend
      process_pending_snapshots host snapshots config.mode config.snapshot_every config.dest
          config.snapshot_dir
      summary ← gets (λ s. summarize_transfer_execution s processed)
      modify (set_phase (final_phase summary))
      persist_state host.env
      pure summary

    unfoldable pub run_phases : ℕ → PlanningSnapshot → Exec W TransferExecutionSummary
    unfolding run_to_deletion run_from_deletion
    run_phases id plan = run_to_deletion id plan >>= run_from_deletion

  -- The `match` on the result of the transfer, which is the result of the command.
  abbrev pub record_outcome :
      Json MigrationRegistry
      → ℕ
      → Result TransferExecutionSummary × Sys W
      → Result (Unit {0}) × Sys W
  unfolding persist_migration_status
  record_outcome registry id (ok summary, s) =
      persist_migration_status host registry default_registry_path id (final_status summary) s
  record_outcome registry id (err e, s) = (
    err e,
    (persist_migration_status host registry default_registry_path id MigrationStatus.failed s).1,
  )

module _ {W : Type 0} (host : Host W) (json : StateJson) (ledger : Json SourceCompletionLedger)
    (registry : Json MigrationRegistry) (scan : FilePath → Exec W (List FileEntry))
    (preflight : PlanningSnapshot → Exec W (Unit {0})) (snapshots : SnapshotBackend W)
    (config : TransferConfig) where
  abbrev transfer_result : FilePath → Text → Text → Text → ℕ → Exec W TransferExecutionSummary
  unfolding prepare_transfer transfer_host run_phases with_transfer_config
  transfer_result state_path mode source dest id =
      prepare_transfer host json ledger scan preflight config state_path mode source dest
      >>= λ plan.
          run_phases (transfer_host host json state_path) ledger registry default_registry_path
            config (with_transfer_config host.is_windows config) snapshots id plan

  unfoldable pub execute_transfer : Exec W (Unit {0})
  unfolding transfer_result register_migration generate_state_filename state_file_in_source
      mode_name record_outcome
  execute_transfer =
      let source = host.to_string_lossy config.source in
      let dest = host.to_string_lossy config.dest in
      let mode = mode_name config.mode in
      register_migration host registry default_registry_path source dest mode
        (generate_state_filename host source dest)
      >>= λ id s. record_outcome host registry id (
          transfer_result (state_file_in_source host config.source config.dest) mode source dest id
            s)
