-- ===== src/Commands/Transfer/Planning.antt =====
-- src/cli/commands/transfer/mod.rs: a transfer up to the seeding of its state. The scan of the
-- source and the preflight checks are arguments, and what is printed is not modelled.
use vibe_caravan.Prelude.{
  Bool, true, false, ◌&&◌, not, List, Text, FilePath, is_empty, if◌then◌else◌,
}
use vibe_caravan.Config.{TransferConfig}
use vibe_caravan.Models.Batch.{FileEntry}
use vibe_caravan.Models.State.{MigrationState}
use vibe_caravan.Plan.Batching.{
  PlanOptions, PlanningSnapshot, check_options, build_plan_from_entries,
}
use vibe_caravan.Plan.Manifest.{planned_batches_from_snapshot, ensure_manifest_matches_snapshot}
use vibe_caravan.Platform.Host.{Host, Json}
use vibe_caravan.Exec.{Exec, pure, lift, gets, ask, attempt, modify, ◌>>=◌, ◌>>◌}
use vibe_caravan.Snapshot.Validation.{validate_snapshot_configuration}
use vibe_caravan.SourceCompletion.Ledger.{SourceCompletionLedger}
use vibe_caravan.SourceCompletion.Filter.{
  filter_for_new_migration_selective, filter_for_persisted_skips_selective,
}
use vibe_caravan.StateStore.{StateJson}
use vibe_caravan.Commands.OperatorReview.{ensure_no_operator_review_blocks_with_policy}
use vibe_caravan.Commands.Transfer.Setup.{apply_transfer_config, load_or_create_state}
use vibe_caravan.Commands.Transfer.Context.{secondary_state_path}

unfoldable pub state_has_manifest : MigrationState → Bool
state_has_manifest s = not (is_empty s.planned_batches && is_empty s.skipped_completed_files)

unfoldable pub state_is_empty_for_completed_file_filtering : MigrationState → Bool
state_is_empty_for_completed_file_filtering s =
    is_empty s.planned_batches && (is_empty s.batches && is_empty s.skipped_completed_files)

module _ {W : Type 0} (host : Host W) where
  module _ (json : StateJson) (ledger : Json SourceCompletionLedger)
      (scan : FilePath → Exec W (List FileEntry)) (config : TransferConfig) (mode : Text)
      (options : PlanOptions) where
    -- The branch for an empty state: the files that are skipped are put down in it.
    abbrev plan_new : List FileEntry → Exec W PlanningSnapshot
    unfolding filter_for_new_migration_selective build_plan_from_entries
    plan_new entries = do
      filtered ← filter_for_new_migration_selective host json ledger config.source mode entries
      attempt host.env.check_interrupt
      modify (λ s. record s { skipped_completed_files = filtered.skipped_completed_files })
      lift (build_plan_from_entries filtered.entries_to_plan options)

    abbrev plan_persisted : MigrationState → List FileEntry → Exec W PlanningSnapshot
    unfolding filter_for_persisted_skips_selective build_plan_from_entries
    plan_persisted s entries = do
      kept ←
          filter_for_persisted_skips_selective host config.source mode entries
            s.skipped_completed_files
      attempt host.env.check_interrupt
      lift (build_plan_from_entries kept options)

    -- `build_plan_with_progress_and_interrupt`.
    abbrev plan_source : Exec W PlanningSnapshot
    unfolding build_plan_from_entries
    plan_source = do
      lift (check_options options)
      entries ← scan config.source
      attempt host.env.check_interrupt
      lift (build_plan_from_entries entries options)

    abbrev plan_for : MigrationState → Exec W PlanningSnapshot
    unfolding plan_new plan_persisted plan_source state_is_empty_for_completed_file_filtering
    plan_for s =
        if state_is_empty_for_completed_file_filtering s
        then scan config.source >>= plan_new
        else if not (is_empty s.skipped_completed_files)
        then scan config.source >>= plan_persisted s
        else plan_source

    unfoldable pub build_plan_for_transfer_state : Exec W PlanningSnapshot
    unfolding plan_for
    build_plan_for_transfer_state = gets (λ s. s) >>= plan_for

  -- `if had_manifest`.
  abbrev pub check_or_seed_manifest : PlanningSnapshot → Bool → Exec W (Unit {0})
  unfolding ensure_manifest_matches_snapshot planned_batches_from_snapshot
  check_or_seed_manifest plan true =
      gets (λ s. ensure_manifest_matches_snapshot s.planned_batches plan) >>= lift
  check_or_seed_manifest plan false =
      modify (λ s. record s { planned_batches = planned_batches_from_snapshot plan })

  module _ (json : StateJson) (ledger : Json SourceCompletionLedger)
      (scan : FilePath → Exec W (List FileEntry)) (preflight : PlanningSnapshot → Exec W (Unit {0}))
      (config : TransferConfig) where
    -- Up to the seeding.
    unfoldable pub prepare_transfer : FilePath → Text → Text → Text → Exec W PlanningSnapshot
    unfolding load_or_create_state apply_transfer_config state_has_manifest
        build_plan_for_transfer_state check_or_seed_manifest validate_snapshot_configuration
        ensure_no_operator_review_blocks_with_policy
    prepare_transfer state_path mode source dest = do
      loaded ←
          load_or_create_state host json config.source state_path secondary_state_path mode source
            dest
      modify (λ s. apply_transfer_config host.to_string_lossy config loaded)
      checked ← gets (λ s.
          ensure_no_operator_review_blocks_with_policy s
            (record { allow_failed_batches = config.recover_failed }))
      lift checked
      had_manifest ← gets state_has_manifest
      plan ←
          build_plan_for_transfer_state json ledger scan config mode
            (record { batch_size_bytes = config.batch_size_bytes; max_files = config.max_files })
      check_or_seed_manifest plan had_manifest
      preflight plan
      valid ← ask (
          validate_snapshot_configuration host config.mode config.snapshot_every config.dest
            config.snapshot_dir)
      lift valid
      pure plan
