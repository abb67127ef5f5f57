-- ===== src/SourceCompletion/Filter.antt =====
-- src/source_completion/filter.rs: files that were copied before are left out of a new plan. A set
-- is the list of its elements; progress is not modelled.
pub mod Split
pub mod Drift
pub mod Hashing
use vibe_caravan.Prelude.{
  ◌≡◌, Bool, true, false, ◌&&◌, not, Option, none, some, List, [], ◌∷◌, ◌++◌, Text, text_eq,
  path_eq, ◌==◌, FilePath, nat_beq, contains, select, map, if◌then◌else◌,
}
use vibe_caravan.Error.{Result, ok, err, CaravanError, Arg, message}
use vibe_caravan.Models.HashMap.{HashMap, get, insert}
use vibe_caravan.Models.Batch.{FileEntry, CompletedFileIdentity}
use vibe_caravan.Platform.Host.{Host, Json}
use vibe_caravan.Exec.{Exec, pure, lift, attempt, ◌>>=◌, ◌>>◌}
use vibe_caravan.StateStore.{StateJson}
use vibe_caravan.SourceCompletion.Ledger.{SourceCompletionLedger, load_ledger}
use vibe_caravan.SourceCompletion.Identity.{
  HashedFileEntry, identity_eq, identity_from_hashed_entry, hash_source_entries,
}
use vibe_caravan.SourceCompletion.Candidates.{candidate_paths_from_existing_states}
use vibe_caravan.SourceCompletion.Backfill.{backfill_ledger_from_existing_states}

pub record FilteredSourceEntries : Type 0 where
  pub entries_to_plan : List FileEntry
  pub skipped_completed_files : List CompletedFileIdentity

abbrev mode_error : Text → CompletedFileIdentity → CaravanError
mode_error mode skipped = CaravanError.state_corrupt (
    message "skipped completed file '{}' belongs to mode '{}' but current state mode is '{}'"
      (Arg.path skipped.relative_path ∷ Arg.word skipped.mode ∷ Arg.word mode ∷ []))

abbrev missing_error : FilePath → CaravanError
missing_error path = CaravanError.invalid_arguments (
    message "source drift detected for skipped completed file '{}': file is missing"
      (Arg.path path ∷ []))

abbrev pub changed_error : FilePath → CaravanError
changed_error path = CaravanError.invalid_arguments (
    message "source drift detected for skipped completed file '{}': identity changed"
      (Arg.path path ∷ []))

abbrev pub missing_hashed_entry_error : FilePath → CaravanError
missing_hashed_entry_error path =
    CaravanError.state_corrupt
      (message "hashed source entries are missing scanned file '{}'" (Arg.path path ∷ []))

-- `iter().map(|entry| (path, entry)).collect()`: of two entries of a path the later one stays.
unfoldable pub collect_by_path :
    {A : Type 0} → (A → FilePath) → List A → HashMap FilePath A → HashMap FilePath A
collect_by_path path_of [] map = map
collect_by_path path_of (a ∷ rest) map = collect_by_path path_of rest (insert map (path_of a) a)

unfoldable pub entries_by_path : List FileEntry → HashMap FilePath FileEntry
unfolding collect_by_path
entries_by_path entries = collect_by_path (λ e. e.relative_path) entries []

unfoldable pub hashed_by_path : List HashedFileEntry → HashMap FilePath HashedFileEntry
unfolding collect_by_path
hashed_by_path entries = collect_by_path (λ e. e.relative_path) entries []

abbrev pub has_scanned_size : CompletedFileIdentity → Option FileEntry → Bool
has_scanned_size identity none = false
has_scanned_size identity (some scanned) = nat_beq scanned.size_bytes identity.size_bytes

unfoldable pub ledger_candidate_paths :
    Text → SourceCompletionLedger → HashMap FilePath FileEntry → List FilePath
ledger_candidate_paths mode ledger scanned =
    map (λ i. i.relative_path)
      (select (λ i. i.mode == mode && has_scanned_size i (get scanned i.relative_path))
        ledger.entries)

abbrev pub same_as_hashed : CompletedFileIdentity → HashedFileEntry → Bool
same_as_hashed skipped current = identity_from_hashed_entry skipped.mode current == skipped

abbrev pub check_current : CompletedFileIdentity → Option HashedFileEntry → Result (Unit {0})
check_current skipped none = err (missing_error skipped.relative_path)
check_current skipped (some current) =
    if not (same_as_hashed skipped current)
    then err (changed_error skipped.relative_path)
    else ok tt

unfoldable pub validate_skipped_file :
    Text → CompletedFileIdentity → HashMap FilePath HashedFileEntry → Result (Unit {0})
validate_skipped_file mode skipped hashed =
    if not (skipped.mode == mode)
    then err (mode_error mode skipped)
    else check_current skipped (get hashed skipped.relative_path)

abbrev check_scanned : CompletedFileIdentity → Option FileEntry → Result (Unit {0})
check_scanned skipped none = err (missing_error skipped.relative_path)
check_scanned skipped (some current) =
    if not (nat_beq current.size_bytes skipped.size_bytes)
    then err (changed_error skipped.relative_path)
    else ok tt

unfoldable pub validate_skipped_file_metadata :
    Text → CompletedFileIdentity → HashMap FilePath FileEntry → Result (Unit {0})
validate_skipped_file_metadata mode skipped scanned =
    if not (skipped.mode == mode)
    then err (mode_error mode skipped)
    else check_scanned skipped (get scanned skipped.relative_path)

-- The body of the loop, after the interrupt: an entry with the hash of its file, or none.
abbrev pub sort_entry :
    Text
    → List CompletedFileIdentity
    → FileEntry
    → Option HashedFileEntry
    → FilteredSourceEntries
    → FilteredSourceEntries
sort_entry mode completed entry none r = record r {
  entries_to_plan = r.entries_to_plan ++ (entry ∷ []);
}
sort_entry mode completed entry (some hashed) r =
    if contains completed (identity_from_hashed_entry mode hashed)
    then record r {
      skipped_completed_files =
          r.skipped_completed_files ++ (identity_from_hashed_entry mode hashed ∷ []);
    }
    else record r { entries_to_plan = r.entries_to_plan ++ (entry ∷ []) }

abbrev pub is_skipped : List CompletedFileIdentity → FileEntry → Bool
is_skipped skipped entry = contains (map (λ i. i.relative_path) skipped) entry.relative_path

module _ {W : Type 0} (host : Host W) where
  unfoldable pub split_entries :
      Text
      → List CompletedFileIdentity
      → HashMap FilePath HashedFileEntry
      → List FileEntry
      → FilteredSourceEntries
      → Exec W FilteredSourceEntries
  split_entries mode completed hashed [] r = pure r
  split_entries mode completed hashed (entry ∷ entries) r = do
    attempt host.env.check_interrupt
    split_entries mode completed hashed entries
        (sort_entry mode completed entry (get hashed entry.relative_path) r)

  module _ (json : StateJson) (ledger_json : Json SourceCompletionLedger) where
    -- From the candidates' hashes on.
    abbrev pub filter_hashed :
        FilePath → Text → List FileEntry → List HashedFileEntry → Exec W FilteredSourceEntries
    unfolding split_entries load_ledger backfill_ledger_from_existing_states hashed_by_path
    filter_hashed source_root mode entries hashed_entries = do
      attempt host.env.check_interrupt
      backfill_ledger_from_existing_states host json ledger_json source_root mode
          (hashed_by_path hashed_entries)
      ledger ← load_ledger host ledger_json source_root
      split_entries mode ledger.entries (hashed_by_path hashed_entries) entries
          (record { entries_to_plan = []; skipped_completed_files = [] })

    -- `filter_entries_for_new_migration_selective`.
    unfoldable pub filter_for_new_migration_selective :
        FilePath → Text → List FileEntry → Exec W FilteredSourceEntries
    unfolding filter_hashed candidate_paths_from_existing_states ledger_candidate_paths
        entries_by_path hash_source_entries load_ledger
    filter_for_new_migration_selective source_root mode entries = do
      attempt host.env.check_interrupt
      ledger ← load_ledger host ledger_json source_root
      earlier ←
          candidate_paths_from_existing_states host json source_root mode (entries_by_path entries)
      hashed ← hash_source_entries host source_root (
          select
            (λ e.
              contains (ledger_candidate_paths mode ledger (entries_by_path entries) ++ earlier)
                e.relative_path)
            entries)
      filter_hashed source_root mode entries hashed

  -- `validate_skipped_file_metadata` for every skipped file.
  unfoldable pub validate_all_metadata :
      Text → HashMap FilePath FileEntry → List CompletedFileIdentity → Exec W (Unit {0})
  unfolding validate_skipped_file_metadata
  validate_all_metadata mode scanned [] = pure tt
  validate_all_metadata mode scanned (skipped ∷ rest) = do
    attempt host.env.check_interrupt
    lift (validate_skipped_file_metadata mode skipped scanned)
    validate_all_metadata mode scanned rest

  unfoldable pub validate_all :
      Text → HashMap FilePath HashedFileEntry → List CompletedFileIdentity → Exec W (Unit {0})
  unfolding validate_skipped_file
  validate_all mode hashed [] = pure tt
  validate_all mode hashed (skipped ∷ rest) =
      lift (validate_skipped_file mode skipped hashed) >>= λ checked. validate_all mode hashed rest

  -- `filter_entries_for_persisted_skips_selective`.
  unfoldable pub filter_for_persisted_skips_selective :
      FilePath → Text → List FileEntry → List CompletedFileIdentity → Exec W (List FileEntry)
  unfolding validate_all_metadata validate_all hash_source_entries entries_by_path hashed_by_path
  filter_for_persisted_skips_selective source_root mode entries skipped = do
    attempt host.env.check_interrupt
    validate_all_metadata mode (entries_by_path entries) skipped
    hashed ← hash_source_entries host source_root (select (is_skipped skipped) entries)
    attempt host.env.check_interrupt
    validate_all mode (hashed_by_path hashed) skipped
    pure (select (λ e. not (is_skipped skipped e)) entries)
