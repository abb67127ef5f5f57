-- ===== src/Config.antt =====
-- src/config.rs: the modes and policies of a run, and the configuration of a transfer.
use vibe_caravan.Prelude.{ℕ, String, Bool, Option, FilePath}

pub data Mode : Type 0 where
  staging migrate : Mode

-- `buffered` stands only in old state files.
pub data CopyStrategy : Type 0 where
  auto native buffered : CopyStrategy

pub data ConflictPolicy : Type 0 where
  skip_file skip_batch : ConflictPolicy

pub record TransferConfig : Type 0 where
  pub mode : Mode
  pub source : FilePath
  pub dest : FilePath
  pub batch_size_bytes : ℕ
  pub max_files : Option ℕ
  pub snapshot_every : Option ℕ
  pub snapshot_dir : Option FilePath
  pub interactive : Bool
  pub log_level : String
  pub skip_conflicts : Bool
  pub conflict_policy : ConflictPolicy
  pub recover_failed : Bool
  pub allow_unsafe_filesystems : Bool
  pub copy_strategy : CopyStrategy
