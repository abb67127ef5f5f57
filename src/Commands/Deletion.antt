-- ===== src/Commands/Deletion.antt =====
-- src/cli/commands/shared/deletion.rs: approved batches are deleted, then the operator is asked
-- about the verified ones. Banners and progress bars are not modelled.
pub mod Consent
pub mod Gate
pub mod Phase
pub mod Steps
use vibe_caravan.Prelude.{
  Bool, true, false, not, Option, none, some, List, [], ◌∷◌, Text, String, FilePath, is_empty,
  if◌then◌else◌,
}
use vibe_caravan.Error.{Result, CaravanError, Arg, message}
use vibe_caravan.Models.Batch.{Batch, BatchState}
use vibe_caravan.Models.State.{
  MigrationState, batch, materialize_planned_batch, batches_approved_but_not_deleted,
  batches_needing_approval, approve_batches,
}
use vibe_caravan.Platform.{Env}
use vibe_caravan.Exec.{
  Sys, Exec, pure, raise, gets, attempt, modify, when, ok_or_raise, ◌>>=◌, ◌>>◌,
}
use vibe_caravan.Cleanup.{cleanup_batch}
use vibe_caravan.Prompt.{request_approval_for_batches}

abbrev pub missing_manifest : Text → CaravanError
missing_manifest id = CaravanError.state_corrupt (
    message "missing immutable batch manifest for {}; cannot continue destructive step"
      (Arg.word id ∷ []))

module _ {W : Type 0} (env : Env W) where
  -- `persist_state(state)?`.
  unfoldable pub persist_state : Exec W (Unit {0})
  persist_state = do state ← gets (λ s. s); attempt (env.persist state)

  unfoldable pub delete_listed : FilePath → String → Text → Exec W (Unit {0})
  unfolding persist_state
  delete_listed source_root context id = do
    planned ← gets (λ s. materialize_planned_batch s id)
    bt ← ok_or_raise planned (missing_manifest id)
    cleanup_batch env bt source_root context
    persist_state

  -- The body of the loop for a batch of the state. One without a record is passed over.
  unfoldable pub delete_found : FilePath → String → Text → Option BatchState → Exec W (Unit {0})
  unfolding delete_listed
  delete_found source_root context id none = pure tt
  delete_found source_root context id (some b) =
      if b.deleted then pure tt else delete_listed source_root context id

  -- `delete_batches_by_id`; nothing is done for an empty list.
  unfoldable pub delete_batches_by_id : FilePath → String → List Text → Exec W (Unit {0})
  unfolding delete_found
  delete_batches_by_id source_root context [] = pure tt
  delete_batches_by_id source_root context (id ∷ ids) = do
    attempt env.check_interrupt
    found ← gets (λ s. batch s id)
    delete_found source_root context id found
    delete_batches_by_id source_root context ids

  -- What follows the operator's answer.
  unfoldable pub delete_if_approved : FilePath → String → List Text → Bool → Exec W (Unit {0})
  unfolding delete_batches_by_id persist_state
  delete_if_approved source_root context ids false = pure tt
  delete_if_approved source_root context ids true = do
    modify (approve_batches ids)
    persist_state
    delete_batches_by_id source_root context ids

  unfoldable pub ask_and_delete : FilePath → String → Bool → List Text → Exec W (Unit {0})
  unfolding delete_if_approved
  ask_and_delete source_root context interactive ids = do
    approved ← attempt (request_approval_for_batches env.read_line interactive false ids)
    delete_if_approved source_root context ids approved

  -- `approve_and_delete_verified_batches`.
  unfoldable pub approve_and_delete : FilePath → String → Bool → Exec W (Unit {0})
  unfolding delete_batches_by_id ask_and_delete
  approve_and_delete source_root context interactive = do
    already ← gets batches_approved_but_not_deleted
    delete_batches_by_id source_root context already
    waiting ← gets batches_needing_approval
    when (not (is_empty waiting)) (ask_and_delete source_root context interactive waiting)
