-- ===== src/Commands/BatchOps.antt =====
-- src/cli/commands/shared/batch_ops.rs: the state around a copy, and the ledger after a failed
-- verification; and the parameters that the commands share. The banners are not modelled.
use vibe_caravan.Prelude.{Bool, true, false, [], ◌∷◌, Text, FilePath}
use vibe_caravan.Error.{Result, ok, err, CaravanError, Arg, message, display}
use vibe_caravan.Models.Batch.{Batch, BatchPhase, BatchState}
use vibe_caravan.Models.State.{batch, upsert_batch}
use vibe_caravan.Platform.Host.{Host, Json}
use vibe_caravan.Exec.{Sys, Exec, raise, gets, modify, ok_or_raise, ◌>>=◌, ◌>>◌}
use vibe_caravan.Transfer.{LocalFsCopyBackend}
use vibe_caravan.Transfer.BatchCopy.{copy_batch}
use vibe_caravan.SourceCompletion.Ledger.{SourceCompletionLedger}
use vibe_caravan.SourceCompletion.Completion.{remove_batch_completed}
use vibe_caravan.Commands.Deletion.{persist_state}

-- `CaravanError::StateCorrupt` for a batch.
abbrev pub disappeared : Text → CaravanError
disappeared id =
    CaravanError.state_corrupt
      (message "batch {} disappeared from state during copy" (Arg.word id ∷ []))

abbrev pub mark_copy_started : BatchState → BatchState
mark_copy_started b = record b { phase = BatchPhase.copy_started }

abbrev pub mark_copied : Bool → BatchState → BatchState
mark_copied true b = record b { phase = BatchPhase.copy_completed; verification_passed = false }
mark_copied false b = record b { phase = BatchPhase.copy_completed }

abbrev pub ledger_cleanup_error : Text → CaravanError → CaravanError
ledger_cleanup_error id e = CaravanError.state_corrupt (
    message "verification failed for {} and completed-file ledger cleanup failed: {}"
      (Arg.word id ∷ Arg.lit (display e).template ∷ (display e).args))

module _ {W A : Type 0} where
  -- `Result::map_err`, on the result of an action.
  abbrev pub map_err : (CaravanError → CaravanError) → Result A × Sys W → Result A × Sys W
  map_err f (ok a, s) = (ok a, s)
  map_err f (err e, s) = (err (f e), s)

  -- `if let Err(err) = action { handle(&err)?; return Err(err); }`.
  abbrev pub on_error : (CaravanError → Exec W (Unit {0})) → Result A × Sys W → Result A × Sys W
  on_error handle (ok a, s) = (ok a, s)
  on_error handle (err e, s) = (handle e >>= λ handled. raise e) s

module _ {W : Type 0} (host : Host W) where
  -- After the lookup of the record.
  unfoldable pub copy_with_record :
      LocalFsCopyBackend → Bool → Batch → FilePath → FilePath → BatchState → Exec W (Unit {0})
  unfolding copy_batch persist_state
  copy_with_record backend reset bt source_root dest_root b = do
    modify (upsert_batch (mark_copy_started b))
    persist_state host.env
    copy_batch host.env host.volume backend bt source_root dest_root
    modify (upsert_batch (mark_copied reset b))
    persist_state host.env

  unfoldable pub copy_batch_with_state_updates :
      LocalFsCopyBackend
      → Bool
      → (Text → CaravanError)
      → Batch
      → FilePath
      → FilePath
      → Exec W (Unit {0})
  unfolding copy_with_record
  copy_batch_with_state_updates backend reset missing bt source_root dest_root = do
    found ← gets (λ s. batch s bt.id)
    b ← ok_or_raise found (missing bt.id)
    copy_with_record backend reset bt source_root dest_root b

  unfoldable pub handle_verification_error :
      Json SourceCompletionLedger → Batch → FilePath → Text → CaravanError → Exec W (Unit {0})
  unfolding remove_batch_completed
  handle_verification_error json bt source_root mode (CaravanError.verification_failed failure) s =
      map_err (ledger_cleanup_error bt.id) (remove_batch_completed host json source_root mode bt s)
  handle_verification_error json bt source_root mode e s = (ok tt, s)
