-- ===== src/Cleanup.antt =====
-- src/cleanup.rs: deleting the source files of a batch. The progress bar is not modelled.
pub mod Effects
pub mod Progress
pub mod Completion
pub mod Safety
use vibe_caravan.Prelude.{
  ℕ, Bool, true, false, not, Option, none, some, List, [], ◌∷◌, ◌++◌, Text, String, FilePath, join,
  if◌then◌else◌,
}
use vibe_caravan.Error.{CaravanError, IoError, Arg, Message, message}
use vibe_caravan.Models.Batch.{FileEntry, Batch, BatchPhase, BatchState, JournalEntry}
use vibe_caravan.Models.State.{MigrationState, batch, upsert_batch}
use vibe_caravan.Platform.{Env}
use vibe_caravan.Exec.{
  Sys, Exec, pure, raise, gets, ask, call, attempt, modify, when, raise_if, ok_or_raise, ◌>>=◌,
  ◌>>◌,
}

abbrev pub missing_state : Text → CaravanError
missing_state id =
    CaravanError.state_corrupt
      (message "missing batch state for {} before cleanup" (Arg.word id ∷ []))

abbrev pub not_verified : CaravanError
not_verified =
    CaravanError.policy_blocked (message "deletion blocked because verification did not pass" [])

abbrev pub not_approved : CaravanError
not_approved =
    CaravanError.policy_blocked (message "deletion blocked because batch is not approved" [])

abbrev pub delete_error : FilePath → IoError → CaravanError
delete_error path e =
    CaravanError.io_context (message "failed to delete source file {}" (Arg.path path ∷ [])) e

abbrev pub failure_context : String → FilePath → IoError → Message
failure_context context path e =
    message "{} | file={} | error={}" (Arg.lit context ∷ Arg.path path ∷ Arg.cause e ∷ [])

abbrev pub mark_failed : BatchState → BatchState
mark_failed b = record b { phase = BatchPhase.failed; deleted = false }

abbrev pub mark_deleted : BatchState → BatchState
mark_deleted b = record b { deleted = true; phase = BatchPhase.delete_completed }

module _ {W : Type 0} (env : Env W) where
  -- `state.journal.push(JournalEntry { event, batch_id, now_unix_secs(), context })`.
  unfoldable pub push_journal : String → Text → Message → Exec W (Unit {0})
  push_journal event id context = do
    now ← call env.now_unix_secs
    modify λ s. record s {
      journal =
          s.journal
          ++ (record { event = event; batch_id = id; timestamp_unix_secs = now; context = context }
              ∷ []);
    }

  -- What follows `remove_file`: on an error the batch is marked as failed.
  unfoldable pub removal_outcome :
      BatchState → Text → String → FilePath → Option IoError → Exec W (Unit {0})
  unfolding push_journal
  removal_outcome b id context path none = pure tt
  removal_outcome b id context path (some e) = do
    modify (upsert_batch (mark_failed b))
    push_journal "delete_failed" id (failure_context context path e)
    raise (delete_error path e)

  -- The body of the loop over the files.
  unfoldable pub delete_file : BatchState → Text → String → FilePath → FileEntry → Exec W (Unit {0})
  unfolding removal_outcome
  delete_file b id context source_root file = do
    attempt env.check_interrupt
    present ← ask (env.exists (join source_root file.relative_path))
    when present do
      outcome ← call (env.remove_file (join source_root file.relative_path))
      removal_outcome b id context (join source_root file.relative_path) outcome
    attempt env.check_interrupt

  unfoldable pub delete_files :
      BatchState → Text → String → FilePath → List FileEntry → Exec W (Unit {0})
  unfolding delete_file
  delete_files b id context source_root [] = pure tt
  delete_files b id context source_root (file ∷ files) = do
    delete_file b id context source_root file
    delete_files b id context source_root files

  -- After the last file.
  unfoldable pub record_deleted : Batch → String → BatchState → Exec W (Unit {0})
  unfolding push_journal
  record_deleted bt context b = do
    modify (upsert_batch (mark_deleted b))
    push_journal "delete_completed" bt.id (message context [])

  unfoldable pub delete_then_record : Batch → FilePath → String → BatchState → Exec W (Unit {0})
  unfolding delete_files record_deleted
  delete_then_record bt source_root context b = do
    delete_files b bt.id context source_root bt.files
    record_deleted bt context b

  -- From the first interrupt check to `delete_completed`.
  unfoldable pub delete_batch : Batch → FilePath → String → BatchState → Exec W (Unit {0})
  unfolding delete_then_record push_journal
  delete_batch bt source_root context b = do
    attempt env.check_interrupt
    push_journal "delete_started" bt.id (message context [])
    delete_then_record bt source_root context b

  abbrev pub delete_unless_deleted : Batch → FilePath → String → BatchState → Exec W (Unit {0})
  delete_unless_deleted bt source_root context b =
      if b.deleted then pure tt else delete_batch bt source_root context b

  -- The guards, and the deletion that they protect.
  abbrev pub cleanup_found : Batch → FilePath → String → BatchState → Exec W (Unit {0})
  cleanup_found bt source_root context b = do
    raise_if (not b.verification_passed) not_verified
    raise_if (not b.approved_for_delete) not_approved
    delete_unless_deleted bt source_root context b

  -- `cleanup_batch_with_remover_and_progress`, which every `cleanup_batch*` calls.
  unfoldable pub cleanup_batch : Batch → FilePath → String → Exec W (Unit {0})
  unfolding delete_batch
  cleanup_batch bt source_root context = do
    found ← gets (λ s. batch s bt.id)
    b ← ok_or_raise found (missing_state bt.id)
    cleanup_found bt source_root context b
