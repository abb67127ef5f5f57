-- ===== src/Commands/Transfer/Quiet.antt =====
-- src/cli/commands/: the changes of the state that the phases of a transfer make keep it valid, and
-- with the writes and the checks around them they leave one file alone.
pub mod Copying
pub mod Verifying
use vibe_caravan.Prelude.{
  ℕ, ◌+◌, ◌≡◌, Bool, true, false, ◌&&◌, not, Option, none, some, List, [], ◌∷◌, ◌++◌, Text, String,
  FilePath, is_empty,
}
use vibe_caravan.Error.{Result, ok, err, CaravanError, VerificationFailure, Message}
use vibe_caravan.Config.{ConflictPolicy, TransferConfig}
use vibe_caravan.Models.Batch.{Batch, BatchPhase, BatchState, MigrationPhase, JournalEntry}
use vibe_caravan.Models.State.{MigrationState, batch, upsert_batch}
use vibe_caravan.Models.State.Laws.{IsValid, upsert_batch-IsValid}
use vibe_caravan.Plan.Batching.{PlanningSnapshot}
use vibe_caravan.Platform.Host.{Host, Json}
use vibe_caravan.Platform.Volume.{Content}
use vibe_caravan.Platform.Steady.{IsSteady}
use vibe_caravan.Exec.{Sys, Exec, pure, gets, ask, attempt, modify, ◌>>=◌}
use vibe_caravan.Exec.Within.{
  Within, Within-pure, Within-raise, Within-gets, Within-ask, Within-lift, Within-ok_or_raise,
  Within-raise_if, Within-if,
}
use vibe_caravan.Exec.Quiet.{
  IsQuiet, IsQuiet-preorder, Quiet, Quiet-call, Quiet-attempt, Quiet-modify, Quiet-bind,
}
use vibe_caravan.AtomicWrite.Quiet.{IsUnwritten}
use vibe_caravan.Transfer.{LocalFsCopyBackend}
use vibe_caravan.Transfer.BatchCopy.Quiet.{IsElsewhere, Quiet-copy_batch}
use vibe_caravan.Capacity.Guard.Quiet.{Quiet-ensure_destination_capacity_for_batch}
use vibe_caravan.Conflict.{ConflictReport, detect_batch_conflicts}
use vibe_caravan.SourceCompletion.Ledger.{SourceCompletionLedger, ledger_path}
use vibe_caravan.SourceCompletion.Identity.{files_in}
use vibe_caravan.SourceCompletion.Completion.{mark_batch_completed, remove_batch_completed}
use vibe_caravan.SourceCompletion.Quiet.{
  Quiet-interrupt, Quiet-mark_batch_completed, Quiet-remove_batch_completed,
}
use vibe_caravan.Resume.Reconciliation.{ReconciliationResult, reconcile_batch_destination}
use vibe_caravan.Verify.{Files, VerificationReport, verify_batch}
use vibe_caravan.Verify.Quiet.{Within-verify_batch}
use vibe_caravan.Verify.Recorded.{
  verify_batch_with_state_updates, record_verification, persist_verified, mark_verified,
  from_report, is_pass,
}
use vibe_caravan.Cleanup.{push_journal}
use vibe_caravan.Commands.Conflicts.{
  non_conflicting_subset_batch, mark_batch_failed_for_conflicts, mark_conflict, conflict_context,
  or_missing,
}
use vibe_caravan.Commands.Deletion.{persist_state}
use vibe_caravan.Commands.BatchOps.{
  disappeared, on_error, map_err, copy_with_record, copy_batch_with_state_updates,
  mark_copy_started, mark_copied, ledger_cleanup_error, handle_verification_error,
}
use vibe_caravan.Commands.Transfer.{
  planned_batch_state, or_planned, requires_conflict_check, is_copied, is_verified, is_failed,
  missing_before_verification, set_phase, effective_conflict_policy, mark_failed_for_conflicts,
  copy_updating, copy_subset, skip_conflicting, copy_whole, copy_unless_conflicts, copy_checked,
  copy_single_batch, verify_updating, verify_single_batch, copy_unless_ready, copy_step,
  copy_batches, run_copy_phase, verify_step, verify_batches, run_verify_phase,
}

-- Another journal, or another phase, leaves a state valid.
pub journal-IsValid :
    (s : MigrationState) (journal : List JournalEntry)
    → IsValid s
    → IsValid (record s { journal = journal })
journal-IsValid s journal v = record {
  batches_differ = v.batches_differ;
  planned_differ = v.planned_differ;
  batch_map = v.batch_map;
  planned_map = v.planned_map;
}

pub set_phase-IsValid :
    (phase : MigrationPhase) (s : MigrationState) → IsValid s → IsValid (set_phase phase s)
set_phase-IsValid phase s v = record {
  batches_differ = v.batches_differ;
  planned_differ = v.planned_differ;
  batch_map = v.batch_map;
  planned_map = v.planned_map;
}

module _ {W : Type 0} (host : Host W) (content : FilePath → W → Content) (q : FilePath)
    (steady : IsSteady host content q) where
  pub Quiet-upsert : (b : BatchState) → Quiet {W = W} content q (modify (upsert_batch b))
  Quiet-upsert b = Quiet-modify content q (upsert_batch b) (upsert_batch-IsValid b)

  pub Quiet-persist_state : Quiet content q (persist_state host.env)
  unfolding persist_state
  Quiet-persist_state =
      Quiet-bind content q _ _ (Within-gets (IsQuiet-preorder content q) (λ s. s))
        λ s. Quiet-attempt content q (host.env.persist s) (steady.persist_same s)

  pub Quiet-set_phase :
      (phase : MigrationPhase) → Quiet {W = W} content q (modify (set_phase phase))
  Quiet-set_phase phase = Quiet-modify content q (set_phase phase) (set_phase-IsValid phase)

  Quiet-push_journal :
      (event : String) (id : Text) (context : Message)
      → Quiet content q (push_journal host.env event id context)
  unfolding push_journal
  Quiet-push_journal event id context =
      Quiet-bind content q _ _ (Quiet-call content q host.env.now_unix_secs steady.now_same) λ now.
        Quiet-modify content q
          (λ s. record s {
            journal =
                s.journal
                ++ (record {
                  event = event;
                  batch_id = id;
                  timestamp_unix_secs = now;
                  context = context;
                }
                    ∷ []);
          })
          (λ s v. journal-IsValid s _ v)

  pub Quiet-mark_failed :
      (missing : Text → Result BatchState) (bt : Batch) (report : ConflictReport) (copied : ℕ)
      → Quiet content q (mark_batch_failed_for_conflicts host.env missing bt report copied)
  unfolding mark_batch_failed_for_conflicts
  Quiet-mark_failed missing bt report copied =
      Quiet-bind content q _ _ (Within-gets (IsQuiet-preorder content q) (λ s. batch s bt.id))
        λ found.
          Quiet-bind content q _ _
            (Within-lift (IsQuiet-preorder content q) (or_missing found (missing bt.id)))
            λ b.
              Quiet-bind content q _ _ (Quiet-upsert (mark_conflict b)) λ _.
                Quiet-push_journal "copy_failed_conflict" bt.id (conflict_context report copied)

  pub Quiet-verify_updating :
      (fs : Files W) (missing : Text → CaravanError) (bt : Batch) (source_root dest_root : FilePath)
      → Quiet content q (attempt fs.check_interrupt)
      → Quiet content q
          (verify_batch_with_state_updates fs host.env.persist missing bt source_root dest_root)
  unfolding verify_batch_with_state_updates record_verification
  Quiet-verify_updating fs missing bt source_root dest_root tick =
      Quiet-bind content q _ _
        (Within-verify_batch fs (IsQuiet content q) (IsQuiet-preorder content q) tick bt source_root
          dest_root)
        λ r.
          Quiet-bind content q _ _ (Within-gets (IsQuiet-preorder content q) (λ s. batch s bt.id))
            λ found.
              Quiet-bind content q _ _
                (Within-ok_or_raise (IsQuiet-preorder content q) found (missing bt.id))
                λ b. Quiet-bind content q _ _ (Quiet-upsert (mark_verified r b)) λ _.
                  Quiet-bind content q _ _
                    (Quiet-bind content q _ _ (Within-gets (IsQuiet-preorder content q) (λ s. s))
                      λ s. Quiet-attempt content q (host.env.persist s) (steady.persist_same s))
                    λ _.
                      Within-raise_if (IsQuiet-preorder content q) (not (is_pass r.status))
                        (CaravanError.verification_failed (from_report r))
