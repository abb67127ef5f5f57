-- ===== src/Models/Batch.antt =====
-- src/models/file_entry.rs, batch.rs and the records of state.rs.
use vibe_caravan.Prelude.{ℕ, String, Bool, Option, none, List, Text, FilePath, map}
use vibe_caravan.Error.{Message}

pub record FileEntry : Type 0 where
  pub relative_path : FilePath
  pub size_bytes : ℕ
  pub modified_time : Option ℕ

pub record Batch : Type 0 where
  pub id : Text
  pub files : List FileEntry
  pub total_bytes : ℕ
  pub file_count : ℕ

pub data MigrationPhase : Type 0 where
  not_started copying verifying awaiting_deletion completed failed : MigrationPhase

pub data BatchPhase : Type 0 where
  planned copy_started copy_completed verify_completed approved_for_delete delete_completed
        snapshot_completed failed :
      BatchPhase

pub record BatchState : Type 0 where
  pub batch_id : Text
  pub phase : BatchPhase
  pub verification_passed : Bool
  pub approved_for_delete : Bool
  pub deleted : Bool

pub record JournalEntry : Type 0 where
  pub event : String
  pub batch_id : Text
  pub timestamp_unix_secs : ℕ
  pub context : Message

pub record CompletedFileIdentity : Type 0 where
  pub mode : Text
  pub relative_path : FilePath
  pub size_bytes : ℕ
  pub blake3_hash : Text

pub record PlannedFile : Type 0 where
  pub relative_path : FilePath
  pub size_bytes : ℕ

pub record PlannedBatch : Type 0 where
  pub batch_id : Text
  pub file_count : ℕ
  pub total_bytes : ℕ
  pub files : List PlannedFile

abbrev pub planned_file : FileEntry → PlannedFile
planned_file f = record { relative_path = f.relative_path; size_bytes = f.size_bytes }

abbrev pub file_entry : PlannedFile → FileEntry
file_entry f = record {
  relative_path = f.relative_path;
  size_bytes = f.size_bytes;
  modified_time = none;
}

unfoldable pub from_batch : Batch → PlannedBatch
from_batch b = record {
  batch_id = b.id;
  file_count = b.file_count;
  total_bytes = b.total_bytes;
  files = map planned_file b.files;
}

unfoldable pub to_batch : PlannedBatch → Batch
to_batch p = record {
  id = p.batch_id;
  files = map file_entry p.files;
  total_bytes = p.total_bytes;
  file_count = p.file_count;
}
