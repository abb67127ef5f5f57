-- ===== src/SourceCompletion/Candidates.antt =====
-- src/source_completion/backfill.rs: the paths that earlier migrations of the source copied. A set
-- of paths is the list of its elements.
use vibe_caravan.Prelude.{
  Bool, true, false, Option, none, some, List, [], ◌∷◌, ◌++◌, Text, text_eq, path_eq, FilePath,
  nat_beq, select, if◌then◌else◌,
}
use vibe_caravan.Models.HashMap.{HashMap, get}
use vibe_caravan.Models.Batch.{FileEntry, PlannedFile, PlannedBatch, BatchState}
use vibe_caravan.Models.State.{MigrationState, planned_batch}
use vibe_caravan.Platform.Host.{Host}
use vibe_caravan.Exec.{Exec, pure, lift, ask, attempt, ◌>>=◌, ◌>>◌}
use vibe_caravan.StateStore.{StateJson, load_state}
use vibe_caravan.SourceCompletion.Ledger.{state_dir_in_source}
use vibe_caravan.SourceCompletion.Identity.{identity_eq}
use vibe_caravan.SourceCompletion.States.{eligible_batch_state, migration_state_paths, is_unrelated}

module _ {W : Type 0} (host : Host W) (json : StateJson) where
  module _ (mode : Text) (scanned_by_path : HashMap FilePath FileEntry) where
    abbrev candidate_found : PlannedFile → Option FileEntry → List FilePath → List FilePath
    candidate_found f none candidates = candidates
    candidate_found f (some scanned) candidates =
        if nat_beq scanned.size_bytes f.size_bytes
        then candidates ++ (f.relative_path ∷ [])
        else candidates

    unfoldable pub candidate_files : List PlannedFile → List FilePath → Exec W (List FilePath)
    candidate_files [] candidates = pure candidates
    candidate_files (f ∷ fs) candidates = do
      attempt host.env.check_interrupt
      candidate_files fs (candidate_found f (get scanned_by_path f.relative_path) candidates)

    abbrev candidate_planned : Option PlannedBatch → List FilePath → Exec W (List FilePath)
    candidate_planned none candidates = pure candidates
    candidate_planned (some planned) candidates = candidate_files planned.files candidates

    unfoldable pub candidate_batches :
        MigrationState → List BatchState → List FilePath → Exec W (List FilePath)
    unfolding planned_batch
    candidate_batches state [] candidates = pure candidates
    candidate_batches state (b ∷ bs) candidates = do
      attempt host.env.check_interrupt
      candidates' ← candidate_planned (planned_batch state b.batch_id) candidates
      candidate_batches state bs candidates'

    unfoldable pub candidate_state : MigrationState → Bool → List FilePath → Exec W (List FilePath)
    unfolding candidate_batches eligible_batch_state
    candidate_state state true candidates = pure candidates
    candidate_state state false candidates =
        candidate_batches state (select eligible_batch_state state.batches) candidates

    unfoldable pub candidate_states :
        FilePath → List FilePath → List FilePath → Exec W (List FilePath)
    unfolding candidate_state load_state is_unrelated
    candidate_states source_root [] candidates = pure candidates
    candidate_states source_root (path ∷ paths) candidates = do
      attempt host.env.check_interrupt
      loaded ← ask (load_state host json path)
      state ← lift loaded
      unrelated ← ask (is_unrelated host json source_root mode state)
      candidates' ← candidate_state state unrelated candidates
      candidate_states source_root paths candidates'

  abbrev candidates_if :
      FilePath → Text → HashMap FilePath FileEntry → Bool → Exec W (List FilePath)
  unfolding candidate_states migration_state_paths
  candidates_if source_root mode scanned_by_path false = pure []
  candidates_if source_root mode scanned_by_path true = do
    listed ← ask (migration_state_paths host json (state_dir_in_source source_root))
    paths ← lift listed
    candidate_states mode scanned_by_path source_root paths []

  unfoldable pub candidate_paths_from_existing_states :
      FilePath → Text → HashMap FilePath FileEntry → Exec W (List FilePath)
  unfolding candidates_if
  candidate_paths_from_existing_states source_root mode scanned_by_path = do
    there ← ask (host.env.exists (state_dir_in_source source_root))
    candidates_if source_root mode scanned_by_path there
