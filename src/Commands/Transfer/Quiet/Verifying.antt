-- ===== src/Commands/Transfer/Quiet/Verifying.antt =====
-- src/cli/commands/transfer/: the verification phase leaves a file alone that is not the ledger, and
-- it keeps the state valid.
use vibe_caravan.Prelude.{ℕ, ◌+◌, ◌&&◌, Option, none, some, List, [], ◌∷◌, Text, FilePath}
use vibe_caravan.Error.{Result, ok, err, CaravanError}
use vibe_caravan.Config.{TransferConfig}
use vibe_caravan.Models.Batch.{Batch, BatchState, MigrationPhase}
use vibe_caravan.Models.State.{batch}
use vibe_caravan.Plan.Batching.{PlanningSnapshot}
use vibe_caravan.Platform.Host.{Host, Json}
use vibe_caravan.Platform.Volume.{Content}
use vibe_caravan.Platform.Steady.{IsSteady}
use vibe_caravan.Exec.{Sys, Exec, pure, raise, ◌>>=◌}
use vibe_caravan.Exec.Within.{Within-pure, Within-raise, Within-gets, Within-if}
use vibe_caravan.Exec.Quiet.{IsQuiet, IsQuiet-preorder, Quiet, Quiet-bind}
use vibe_caravan.AtomicWrite.Quiet.{IsUnwritten}
use vibe_caravan.Transfer.{LocalFsCopyBackend}
use vibe_caravan.SourceCompletion.Ledger.{SourceCompletionLedger, ledger_path}
use vibe_caravan.SourceCompletion.Identity.{files_in}
use vibe_caravan.SourceCompletion.Quiet.{Quiet-interrupt, Quiet-remove_batch_completed}
use vibe_caravan.Commands.BatchOps.{
  on_error, map_err, ledger_cleanup_error, handle_verification_error,
}
use vibe_caravan.Commands.Transfer.{
  is_verified, is_failed, missing_before_verification, verify_single_batch, verify_step,
  verify_batches, run_verify_phase,
}
use vibe_caravan.Commands.Transfer.Quiet.{
  Quiet-persist_state, Quiet-set_phase, Quiet-verify_updating,
}

module _ {W : Type 0} (host : Host W) (ledger : Json SourceCompletionLedger)
    (config : TransferConfig) (backend : LocalFsCopyBackend) (content : FilePath → W → Content)
    (q : FilePath) (steady : IsSteady host content q)
    (unwritten : IsUnwritten (ledger_path config.source) q) where
  map_err-IsQuiet :
      {A : Type 0} (f : CaravanError → CaravanError) (s : Sys W) (r : Result A × Sys W)
      → IsQuiet content q s r.1
      → IsQuiet content q s (map_err f r).1
  map_err-IsQuiet f s (ok a, t) h = h
  map_err-IsQuiet f s (err e, t) h = h

  on_error-IsQuiet :
      {A : Type 0} (handle : CaravanError → Exec W (Unit {0})) (s : Sys W) (r : Result A × Sys W)
      → IsQuiet content q s r.1
      → ((e : CaravanError) → Quiet content q (handle e))
      → IsQuiet content q s (on_error handle r).1
  on_error-IsQuiet handle s (ok a, t) h k = h
  on_error-IsQuiet {A = A} handle s (err e, t) h k = (IsQuiet-preorder content q).chain s t _ h (
      (Quiet-bind content q (handle e) (λ handled. raise {A = A} e) (k e)
          (λ _. Within-raise (IsQuiet-preorder content q) e)).at
        t)

  Quiet-handle_verification_error :
      (bt : Batch) (mode : Text) (e : CaravanError)
      → Quiet content q (handle_verification_error host ledger bt config.source mode e)
  unfolding handle_verification_error
  Quiet-handle_verification_error bt mode (CaravanError.verification_failed failure) = record {
    at = λ s. map_err-IsQuiet (ledger_cleanup_error bt.id) s _ (
        (Quiet-remove_batch_completed host content q steady ledger config.source unwritten mode
            bt).at
          s);
  }
  Quiet-handle_verification_error bt mode e = Within-pure (IsQuiet-preorder content q) tt

  Quiet-verify_single_batch :
      (bt : Batch) → Quiet content q (verify_single_batch host ledger config backend bt)
  unfolding verify_single_batch
  Quiet-verify_single_batch bt = record {
    at = λ s.
        on_error-IsQuiet _ s _
          ((Quiet-verify_updating host content q steady (files_in host s.world)
              missing_before_verification bt config.source config.dest
              (Quiet-interrupt host content q steady)).at
            s)
          λ e.
            Quiet-bind content q _ _ (Within-gets (IsQuiet-preorder content q) (λ t. t.mode))
              λ mode. Quiet-handle_verification_error bt mode e;
  }

  Quiet-verified :
      (bt : Batch)
      → Quiet content q {A = ℕ}
          (verify_single_batch host ledger config backend bt >>= λ verified. pure 1)
  Quiet-verified bt =
      Quiet-bind content q _ _ (Quiet-verify_single_batch bt)
        λ _. Within-pure (IsQuiet-preorder content q) 1

  Quiet-verify_step :
      (bt : Batch) (found : Option BatchState)
      → Quiet content q (verify_step host ledger config backend bt found)
  unfolding verify_step
  Quiet-verify_step bt none = Quiet-verified bt
  Quiet-verify_step bt (some b) =
      Within-if (IsQuiet-preorder content q) b.deleted _ _
        (Within-pure (IsQuiet-preorder content q) 0)
        (Within-if (IsQuiet-preorder content q) (is_failed b.phase) _ _
          (Within-pure (IsQuiet-preorder content q) 0)
          (Within-if (IsQuiet-preorder content q) (b.verification_passed && is_verified b.phase) _ _
            (Within-pure (IsQuiet-preorder content q) 1) (Quiet-verified bt)))

  Quiet-verify_batches :
      (bts : List Batch) (processed : ℕ)
      → Quiet content q (verify_batches host ledger config backend bts processed)
  unfolding verify_batches
  Quiet-verify_batches [] processed = Within-pure (IsQuiet-preorder content q) processed
  Quiet-verify_batches (bt ∷ rest) processed =
      Quiet-bind content q _ _ (Quiet-interrupt host content q steady) λ _.
        Quiet-bind content q _ _ (Within-gets (IsQuiet-preorder content q) (λ s. batch s bt.id))
          λ found.
            Quiet-bind content q _ _ (Quiet-verify_step bt found)
              λ n. Quiet-verify_batches rest (processed + n)

  pub Quiet-run_verify_phase :
      (plan : PlanningSnapshot) → Quiet content q (run_verify_phase host ledger config backend plan)
  unfolding run_verify_phase
  Quiet-run_verify_phase plan =
      Quiet-bind content q _ _ (Quiet-set_phase host content q steady MigrationPhase.verifying) λ _.
        Quiet-bind content q _ _ (Quiet-persist_state host content q steady)
          λ _. Quiet-verify_batches plan.batches 0
