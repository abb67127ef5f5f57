-- ===== src/Tests/Skipping.antt =====
-- The theorems on files that were copied before, with the disk in memory.
use vibe_caravan.Prelude.{
  ◌≡◌, refl, inl, inr, not, none, some, [], ◌∷◌, text, text_eq, path_eq, select,
}
use vibe_caravan.Error.{ok, message}
use vibe_caravan.Models.Batch.{FileEntry, CompletedFileIdentity}
use vibe_caravan.Platform.Host.{Json}
use vibe_caravan.Exec.{Sys}
use vibe_caravan.StateStore.{StateJson}
use vibe_caravan.SourceCompletion.Ledger.{SourceCompletionLedger, ledger_path}
use vibe_caravan.SourceCompletion.Identity.{hex_lower, identity_eq, identity_from_hashed_entry}
use vibe_caravan.SourceCompletion.Filter.{
  FilteredSourceEntries, is_skipped, filter_for_new_migration_selective,
  filter_for_persisted_skips_selective,
}
use vibe_caravan.SourceCompletion.Filter.Split.{
  IsFiltered, filter_for_new_migration_selective-IsFiltered,
}
use vibe_caravan.SourceCompletion.Filter.Drift.{
  Rechecked, filter_for_persisted_skips_selective-IsCurrent,
}
use vibe_caravan.Tests.Data.{path_a, path_b, planned_state}
use vibe_caravan.Tests.Disk.{Disk, put, disk_host}

abbrev file_a : FileEntry
file_a = record { relative_path = path_a; size_bytes = 5; modified_time = none }

abbrev file_b : FileEntry
file_b = record { relative_path = path_b; size_bytes = 5; modified_time = none }

abbrev known : CompletedFileIdentity
known = record {
  mode = text "staging";
  relative_path = path_a;
  size_bytes = 5;
  blake3_hash = text "6279746573";
}

abbrev ledger : SourceCompletionLedger
ledger = record { format_version = 1; entries = known ∷ [] }

abbrev pub ledger_json : Json SourceCompletionLedger
ledger_json = record { to_vec = λ l. []; from_str = λ bytes. inr ledger }

abbrev system : Sys Disk
unfolding ledger_path
system = record {
  state = planned_state;
  world = put (ledger_path (text "src" ∷ [])) (some []) (λ q. none);
}

abbrev pub state_json : StateJson
state_json = record {
  envelope = record { to_vec = λ e. []; from_str = λ b. inl (message "no envelope" []) };
  state = record { to_vec = λ s. []; from_str = λ b. inl (message "no state" []) };
}

abbrev split : FilteredSourceEntries
split = record { entries_to_plan = file_b ∷ []; skipped_completed_files = known ∷ [] }

splits :
    (filter_for_new_migration_selective disk_host state_json ledger_json
      (text "src" ∷ [])
      (text "staging")
      (file_a ∷ file_b ∷ [])
      system).0
    ≡ ok split
unfolding filter_for_new_migration_selective text_eq path_eq ledger_path hex_lower identity_eq
    identity_from_hashed_entry
splits = refl

filter_for_new_migration_selective-IsFiltered_example :
    IsFiltered disk_host state_json ledger_json
      (text "src" ∷ [])
      (text "staging")
      (file_a ∷ file_b ∷ [])
      system
      split
filter_for_new_migration_selective-IsFiltered_example =
    filter_for_new_migration_selective-IsFiltered disk_host state_json ledger_json (text "src" ∷ [])
      (text "staging") (file_a ∷ file_b ∷ []) system split splits

keeps :
    (filter_for_persisted_skips_selective disk_host
      (text "src" ∷ [])
      (text "staging")
      (file_a ∷ file_b ∷ [])
      (known ∷ [])
      system).0
    ≡ ok (file_b ∷ [])
unfolding filter_for_persisted_skips_selective text_eq path_eq hex_lower identity_eq
    identity_from_hashed_entry
keeps = refl

filter_for_persisted_skips_selective-IsCurrent_example :
    (file_b ∷ [] ≡ select (λ e. not (is_skipped (known ∷ []) e)) (file_a ∷ file_b ∷ []))
    × Rechecked disk_host
        (text "src" ∷ [])
        (text "staging")
        (select (is_skipped (known ∷ [])) (file_a ∷ file_b ∷ []))
        (known ∷ [])
filter_for_persisted_skips_selective-IsCurrent_example =
    filter_for_persisted_skips_selective-IsCurrent disk_host (text "src" ∷ []) (text "staging")
      (file_a ∷ file_b ∷ []) (known ∷ []) system (file_b ∷ []) keeps
