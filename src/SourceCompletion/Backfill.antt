-- ===== src/SourceCompletion/Backfill.antt =====
-- src/source_completion/backfill.rs: the ledger gains the files that earlier migrations of the
-- source copied.
use vibe_caravan.Prelude.{
  Bool, true, false, not, Option, none, some, List, [], ◌∷◌, Text, text_eq, path_eq, FilePath,
  nat_beq, length, ℕ, ◌-◌, select, if◌then◌else◌,
}
use vibe_caravan.Models.HashMap.{HashMap, get}
use vibe_caravan.Models.Batch.{PlannedFile, PlannedBatch, BatchState, CompletedFileIdentity}
use vibe_caravan.Models.State.{MigrationState, planned_batch}
use vibe_caravan.Platform.Host.{Host, Json}
use vibe_caravan.Exec.{Exec, pure, lift, ask, attempt, when, ◌>>=◌, ◌>>◌}
use vibe_caravan.StateStore.{StateJson, load_state}
use vibe_caravan.SourceCompletion.Ledger.{
  SourceCompletionLedger, state_dir_in_source, load_ledger, persist_ledger,
}
use vibe_caravan.SourceCompletion.Identity.{
  HashedFileEntry, identity_eq, identity_from_hashed_entry,
}
use vibe_caravan.SourceCompletion.Completion.{push_new}
use vibe_caravan.SourceCompletion.States.{eligible_batch_state, migration_state_paths, is_unrelated}

module _ {W : Type 0} (host : Host W) (json : StateJson) where
  module _ (mode : Text) (hashed_by_path : HashMap FilePath HashedFileEntry) where
    abbrev pub backfill_found :
        PlannedFile
        → Option HashedFileEntry
        → List CompletedFileIdentity
        → List CompletedFileIdentity
    backfill_found f none entries = entries
    backfill_found f (some hashed) entries =
        if not (nat_beq hashed.size_bytes f.size_bytes)
        then entries
        else push_new entries (identity_from_hashed_entry mode hashed)

    unfoldable pub backfill_files :
        List PlannedFile → List CompletedFileIdentity → Exec W (List CompletedFileIdentity)
    backfill_files [] entries = pure entries
    backfill_files (f ∷ fs) entries = do
      attempt host.env.check_interrupt
      backfill_files fs (backfill_found f (get hashed_by_path f.relative_path) entries)

    -- A batch without a manifest is left out, with a warning.
    abbrev backfill_planned :
        Option PlannedBatch → List CompletedFileIdentity → Exec W (List CompletedFileIdentity)
    backfill_planned none entries = pure entries
    backfill_planned (some planned) entries = backfill_files planned.files entries

    unfoldable pub backfill_batches :
        MigrationState
        → List BatchState
        → List CompletedFileIdentity
        → Exec W (List CompletedFileIdentity)
    unfolding planned_batch
    backfill_batches state [] entries = pure entries
    backfill_batches state (b ∷ bs) entries = do
      attempt host.env.check_interrupt
      entries' ← backfill_planned (planned_batch state b.batch_id) entries
      backfill_batches state bs entries'

    unfoldable pub backfill_state :
        FilePath
        → MigrationState
        → Bool
        → List CompletedFileIdentity
        → Exec W (List CompletedFileIdentity)
    unfolding backfill_batches eligible_batch_state
    backfill_state source_root state true entries = pure entries
    backfill_state source_root state false entries =
        backfill_batches state (select eligible_batch_state state.batches) entries

    unfoldable pub backfill_states :
        FilePath → List FilePath → List CompletedFileIdentity → Exec W (List CompletedFileIdentity)
    unfolding backfill_state load_state is_unrelated
    backfill_states source_root [] entries = pure entries
    backfill_states source_root (path ∷ paths) entries = do
      attempt host.env.check_interrupt
      loaded ← ask (load_state host json path)
      state ← lift loaded
      unrelated ← ask (is_unrelated host json source_root mode state)
      entries' ← backfill_state source_root state unrelated entries
      backfill_states source_root paths entries'

  module _ (ledger_json : Json SourceCompletionLedger) where
    abbrev persist_if_longer :
        FilePath → SourceCompletionLedger → List CompletedFileIdentity → Exec W (Unit {0})
    persist_if_longer source_root ledger entries =
        when (not (nat_beq (length entries) (length ledger.entries)))
          (persist_ledger host ledger_json source_root (record ledger { entries = entries }))

    abbrev backfill_if : FilePath → Text → HashMap FilePath HashedFileEntry → Bool → Exec W ℕ
    unfolding backfill_states migration_state_paths load_ledger persist_ledger
    backfill_if source_root mode hashed_by_path false = pure 0
    backfill_if source_root mode hashed_by_path true = do
      ledger ← load_ledger host ledger_json source_root
      listed ← ask (migration_state_paths host json (state_dir_in_source source_root))
      paths ← lift listed
      entries ← backfill_states mode hashed_by_path source_root paths ledger.entries
      persist_if_longer source_root ledger entries
      pure (length entries - length ledger.entries)

    -- `backfill_ledger_from_existing_states_with_interrupt`.
    unfoldable pub backfill_ledger_from_existing_states :
        FilePath → Text → HashMap FilePath HashedFileEntry → Exec W ℕ
    unfolding backfill_if
    backfill_ledger_from_existing_states source_root mode hashed_by_path = do
      there ← ask (host.env.exists (state_dir_in_source source_root))
      backfill_if source_root mode hashed_by_path there
