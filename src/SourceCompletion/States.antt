-- ===== src/SourceCompletion/States.antt =====
-- src/source_completion/backfill.rs: the states of earlier migrations that are kept beside the
-- source, and which of their batches count as copied.
use vibe_caravan.Prelude.{
  ◌⊎◌, inl, inr, Bool, true, false, ◌&&◌, ◌||◌, not, Option, none, some, List, [], ◌∷◌, Text, text,
  text_eq, path_eq, ◌==◌, text_starts_with, text_ends_with, backslash_to_slash, to_ascii_lowercase,
  file_name, FilePath, select, sort_by, path_cmp, if◌then◌else◌,
}
use vibe_caravan.Error.{Result, ok, err, CaravanError, IoError, Arg, message}
use vibe_caravan.Models.Batch.{BatchPhase, BatchState}
use vibe_caravan.Models.State.{MigrationState}
use vibe_caravan.Platform.Host.{Host}
use vibe_caravan.StateStore.{StateJson}
use vibe_caravan.SourceCompletion.Identity.{identity_eq}

abbrev pub enumerate_error : FilePath → IoError → CaravanError
enumerate_error dir e =
    CaravanError.io_context
      (message "failed to enumerate source completion backfill states in {}" (Arg.path dir ∷ [])) e

abbrev pub entry_error : FilePath → IoError → CaravanError
entry_error dir e =
    CaravanError.io_context
      (message "failed to read source completion backfill state entry in {}" (Arg.path dir ∷ [])) e

abbrev pub is_eligible : BatchPhase → Bool → Bool
is_eligible BatchPhase.copy_completed verified = true
is_eligible BatchPhase.approved_for_delete verified = true
is_eligible BatchPhase.delete_completed verified = true
is_eligible BatchPhase.snapshot_completed verified = true
is_eligible BatchPhase.verify_completed verified = verified
is_eligible BatchPhase.planned verified = false
is_eligible BatchPhase.copy_started verified = false
is_eligible BatchPhase.failed verified = false

unfoldable pub eligible_batch_state : BatchState → Bool
eligible_batch_state b = is_eligible b.phase b.verification_passed

abbrev pub is_state_name : Option Text → Bool
unfolding text_starts_with text_ends_with
is_state_name none = false
is_state_name (some name) =
    text_starts_with name (text "migration_") && text_ends_with name (text ".json")

abbrev pub with_path : FilePath → Result (List FilePath) → Result (List FilePath)
with_path p (ok ps) = ok (p ∷ ps)
with_path p (err e) = err e

-- The first error among the entries, or their paths.
unfoldable pub all_paths : FilePath → List (IoError ⊎ FilePath) → Result (List FilePath)
all_paths dir [] = ok []
all_paths dir (inl e ∷ rest) = err (entry_error dir e)
all_paths dir (inr p ∷ rest) = with_path p (all_paths dir rest)

abbrev pub paths_in : FilePath → IoError ⊎ List (IoError ⊎ FilePath) → Result (List FilePath)
unfolding all_paths
paths_in dir (inl e) = err (enumerate_error dir e)
paths_in dir (inr entries) = all_paths dir entries

-- `paths.retain(...)` and `paths.sort()`.
abbrev pub state_files : Result (List FilePath) → Result (List FilePath)
state_files (ok paths) = ok (sort_by path_cmp (select (λ p. is_state_name (file_name p)) paths))
state_files (err e) = err e

module _ {W : Type 0} (host : Host W) (json : StateJson) where
  unfoldable pub migration_state_paths : FilePath → W → Result (List FilePath)
  unfolding paths_in
  migration_state_paths dir w = state_files (paths_in dir (host.list_dir dir w))

  abbrev pub canonical_or_given : FilePath → IoError ⊎ FilePath → FilePath
  canonical_or_given path (inl e) = path
  canonical_or_given path (inr canonical) = canonical

  unfoldable pub normalized_path : FilePath → W → Text
  unfolding backslash_to_slash
  normalized_path path w =
      let rendered =
        backslash_to_slash
          (host.to_string_lossy (canonical_or_given path (host.canonicalize path w))) in
      if host.is_windows then to_ascii_lowercase rendered else rendered

  -- The state is of another mode, or of another source.
  unfoldable pub is_unrelated : FilePath → Text → MigrationState → W → Bool
  unfolding normalized_path
  is_unrelated source_root mode state w =
      not (state.mode == mode)
      || not (normalized_path (host.path_of state.source) w == normalized_path source_root w)
