-- ===== src/Commands/Transfer/Quiet/Copying.antt =====
-- src/cli/commands/transfer/: the copy phase leaves a file alone that is neither below the
-- destination nor the ledger, and it keeps the state valid.
use vibe_caravan.Prelude.{ℕ, ◌+◌, Bool, true, Option, none, some, List, [], ◌∷◌, FilePath, is_empty}
use vibe_caravan.Error.{ok}
use vibe_caravan.Config.{ConflictPolicy, TransferConfig}
use vibe_caravan.Models.Batch.{Batch, BatchState, MigrationPhase}
use vibe_caravan.Models.State.{batch}
use vibe_caravan.Plan.Batching.{PlanningSnapshot}
use vibe_caravan.Platform.Host.{Host, Json}
use vibe_caravan.Platform.Volume.{Content}
use vibe_caravan.Platform.Steady.{IsSteady}
use vibe_caravan.Exec.{pure, ◌>>=◌}
use vibe_caravan.Exec.Within.{Within-pure, Within-gets, Within-ask, Within-ok_or_raise, Within-if}
use vibe_caravan.Exec.Quiet.{IsQuiet-preorder, Quiet, Quiet-bind}
use vibe_caravan.AtomicWrite.Quiet.{IsUnwritten}
use vibe_caravan.Transfer.{LocalFsCopyBackend}
use vibe_caravan.Transfer.BatchCopy.Quiet.{IsElsewhere, Quiet-copy_batch}
use vibe_caravan.Capacity.Guard.Quiet.{Quiet-ensure_destination_capacity_for_batch}
use vibe_caravan.Conflict.{ConflictReport, detect_batch_conflicts}
use vibe_caravan.SourceCompletion.Ledger.{SourceCompletionLedger, ledger_path}
use vibe_caravan.SourceCompletion.Quiet.{Quiet-interrupt, Quiet-mark_batch_completed}
use vibe_caravan.Resume.Reconciliation.{ReconciliationResult, reconcile_batch_destination}
use vibe_caravan.Commands.Conflicts.{non_conflicting_subset_batch}
use vibe_caravan.Commands.BatchOps.{
  disappeared, copy_with_record, copy_batch_with_state_updates, mark_copy_started, mark_copied,
}
use vibe_caravan.Commands.Transfer.{
  planned_batch_state, or_planned, requires_conflict_check, is_copied, effective_conflict_policy,
  mark_failed_for_conflicts, copy_updating, copy_subset, skip_conflicting, copy_whole,
  copy_unless_conflicts, copy_checked, copy_single_batch, copy_unless_ready, copy_step,
  copy_batches, run_copy_phase,
}
use vibe_caravan.Commands.Transfer.Quiet.{
  Quiet-upsert, Quiet-persist_state, Quiet-set_phase, Quiet-mark_failed,
}

module _ {W : Type 0} (host : Host W) (ledger : Json SourceCompletionLedger)
    (config : TransferConfig) (backend : LocalFsCopyBackend) (content : FilePath → W → Content)
    (q : FilePath) (steady : IsSteady host content q) (elsewhere : IsElsewhere config.dest q)
    (unwritten : IsUnwritten (ledger_path config.source) q) where
  Quiet-failed :
      (bt : Batch) (report : ConflictReport) (copied : ℕ)
      → Quiet content q (mark_failed_for_conflicts host ledger config backend bt report copied)
  unfolding mark_failed_for_conflicts
  Quiet-failed bt report copied =
      Quiet-bind content q _ _
        (Quiet-mark_failed host content q steady (λ id. ok (planned_batch_state id)) bt report
          copied)
        λ _. Quiet-persist_state host content q steady

  Quiet-copy_with_record :
      (reset : Bool) (bt : Batch) (b : BatchState)
      → Quiet content q (copy_with_record host backend reset bt config.source config.dest b)
  unfolding copy_with_record
  Quiet-copy_with_record reset bt b =
      Quiet-bind content q _ _ (Quiet-upsert host content q steady (mark_copy_started b)) λ _.
        Quiet-bind content q _ _ (Quiet-persist_state host content q steady) λ _.
          Quiet-bind content q _ _
            (Quiet-copy_batch host.env host.volume content steady.volume_laws q backend bt
              config.source config.dest elsewhere)
            λ _.
              Quiet-bind content q _ _ (Quiet-upsert host content q steady (mark_copied reset b))
                λ _. Quiet-persist_state host content q steady

  Quiet-copy_updating : (bt : Batch) → Quiet content q (copy_updating host ledger config backend bt)
  unfolding copy_updating copy_batch_with_state_updates
  Quiet-copy_updating bt =
      Quiet-bind content q _ _ (Within-gets (IsQuiet-preorder content q) (λ s. batch s bt.id))
        λ found.
          Quiet-bind content q _ _
            (Within-ok_or_raise (IsQuiet-preorder content q) found (disappeared bt.id))
            λ b. Quiet-copy_with_record true bt b

  Quiet-copy_subset :
      (bt : Batch) (b : BatchState) (report : ConflictReport) (subset : Batch)
      → Quiet content q (copy_subset host ledger config backend bt b report subset)
  unfolding copy_subset
  Quiet-copy_subset bt b report subset =
      Within-if (IsQuiet-preorder content q) (is_empty subset.files) _ _ (Quiet-failed bt report 0)
        (Quiet-bind content q _ _ (Quiet-upsert host content q steady b) λ _.
          Quiet-bind content q _ _ (Quiet-copy_updating subset)
            λ _. Quiet-failed bt report subset.file_count)

  Quiet-skip_conflicting :
      (bt : Batch) (b : BatchState) (report : ConflictReport) (policy : ConflictPolicy)
      → Quiet content q (skip_conflicting host ledger config backend bt b report policy)
  unfolding skip_conflicting
  Quiet-skip_conflicting bt b report ConflictPolicy.skip_batch = Quiet-failed bt report 0
  Quiet-skip_conflicting bt b report ConflictPolicy.skip_file =
      Quiet-copy_subset bt b report (non_conflicting_subset_batch bt config.dest report)

  Quiet-copy_whole :
      (bt : Batch) (b : BatchState) → Quiet content q (copy_whole host ledger config backend bt b)
  unfolding copy_whole
  Quiet-copy_whole bt b = Quiet-bind content q _ _ (Quiet-upsert host content q steady b) λ _.
      Quiet-bind content q _ _ (Quiet-copy_updating bt) λ _.
        Quiet-bind content q _ _ (Within-gets (IsQuiet-preorder content q) (λ s. s.mode)) λ mode.
          Quiet-mark_batch_completed host content q steady ledger config.source unwritten mode bt

  Quiet-copy_unless_conflicts :
      (bt : Batch) (b : BatchState) (report : ConflictReport)
      → Quiet content q (copy_unless_conflicts host ledger config backend bt b report)
  unfolding copy_unless_conflicts
  Quiet-copy_unless_conflicts bt b report =
      Within-if (IsQuiet-preorder content q) report.has_conflicts _ _
        (Quiet-skip_conflicting bt b report (effective_conflict_policy config))
        (Quiet-copy_whole bt b)

  Quiet-copy_checked :
      (bt : Batch) (b : BatchState) → Quiet content q (copy_checked host ledger config backend bt b)
  unfolding copy_checked
  Quiet-copy_checked bt b =
      Within-if (IsQuiet-preorder content q) (requires_conflict_check b.phase) _ _
        (Quiet-bind content q _ _
          (Within-ask (IsQuiet-preorder content q) (detect_batch_conflicts host bt config.dest))
          λ report. Quiet-copy_unless_conflicts bt b report)
        (Quiet-copy_whole bt b)

  Quiet-copy_single_batch :
      (bt : Batch) → Quiet content q (copy_single_batch host ledger config backend bt)
  unfolding copy_single_batch
  Quiet-copy_single_batch bt =
      Quiet-bind content q _ _ (Within-gets (IsQuiet-preorder content q) (λ s. batch s bt.id))
        λ found.
          Quiet-bind content q _ _
            (Quiet-ensure_destination_capacity_for_batch host content q steady config.dest elsewhere
              bt)
            λ _. Quiet-copy_checked bt (or_planned found bt.id)

  Quiet-copy_unless_ready :
      (bt : Batch) (recon : ReconciliationResult)
      → Quiet content q (copy_unless_ready host ledger config backend bt recon)
  unfolding copy_unless_ready
  Quiet-copy_unless_ready bt recon =
      Within-if (IsQuiet-preorder content q) recon.all_destination_files_ready _ _
        (Within-pure (IsQuiet-preorder content q) tt) (Quiet-copy_single_batch bt)

  Quiet-copied :
      (bt : Batch)
      → Quiet content q {A = ℕ}
          (copy_single_batch host ledger config backend bt >>= λ copied. pure 0)
  Quiet-copied bt =
      Quiet-bind content q _ _ (Quiet-copy_single_batch bt)
        λ _. Within-pure (IsQuiet-preorder content q) 0

  Quiet-copy_step :
      (bt : Batch) (found : Option BatchState)
      → Quiet content q (copy_step host ledger config backend bt found)
  unfolding copy_step
  Quiet-copy_step bt none = Quiet-copied bt
  Quiet-copy_step bt (some b) =
      Within-if (IsQuiet-preorder content q) b.deleted _ _
        (Within-pure (IsQuiet-preorder content q) 1)
        (Within-if (IsQuiet-preorder content q) (is_copied b.phase) _ _
          (Quiet-bind content q _ _
            (Within-ask (IsQuiet-preorder content q)
              (λ w. reconcile_batch_destination (host.metadata w) bt config.dest))
            λ recon.
              Quiet-bind content q _ _ (Quiet-copy_unless_ready bt recon)
                λ _. Within-pure (IsQuiet-preorder content q) 0)
          (Quiet-copied bt))

  Quiet-copy_batches :
      (bts : List Batch) (processed : ℕ)
      → Quiet content q (copy_batches host ledger config backend bts processed)
  unfolding copy_batches
  Quiet-copy_batches [] processed = Within-pure (IsQuiet-preorder content q) processed
  Quiet-copy_batches (bt ∷ rest) processed =
      Quiet-bind content q _ _ (Quiet-interrupt host content q steady) λ _.
        Quiet-bind content q _ _ (Within-gets (IsQuiet-preorder content q) (λ s. batch s bt.id))
          λ found.
            Quiet-bind content q _ _ (Quiet-copy_step bt found)
              λ n. Quiet-copy_batches rest (processed + n)

  pub Quiet-run_copy_phase :
      (plan : PlanningSnapshot) → Quiet content q (run_copy_phase host ledger config backend plan)
  unfolding run_copy_phase
  Quiet-run_copy_phase plan =
      Quiet-bind content q _ _ (Quiet-set_phase host content q steady MigrationPhase.copying) λ _.
        Quiet-bind content q _ _ (Quiet-persist_state host content q steady)
          λ _. Quiet-copy_batches plan.batches 0
