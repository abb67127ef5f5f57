-- ===== src/Transfer.antt =====
-- src/transfer: which copier is used (strategy.rs, backend.rs), and the copying of a batch. Progress
-- is not modelled. On Windows, and only there, the platform has a copy call of its own.
pub mod Copier
pub mod AtomicCopy
pub mod BatchCopy
use vibe_caravan.Prelude.{Bool, true, false, not, ◌&&◌, if◌then◌else◌}
use vibe_caravan.Config.{Mode, CopyStrategy, TransferConfig}

pub data ResolvedCopyStrategy : Type 0 where
  os native_preferred : ResolvedCopyStrategy

abbrev pub is_staging : Mode → Bool
is_staging Mode.staging = true
is_staging Mode.migrate = false

-- `is_windows_build()` is the first argument.
unfoldable pub normalize_legacy_copy_strategy : Bool → CopyStrategy → CopyStrategy
normalize_legacy_copy_strategy windows CopyStrategy.auto = CopyStrategy.auto
normalize_legacy_copy_strategy windows CopyStrategy.buffered = CopyStrategy.auto
normalize_legacy_copy_strategy windows CopyStrategy.native =
    if not windows then CopyStrategy.auto else CopyStrategy.native

unfoldable pub resolve_copy_strategy : Bool → CopyStrategy → Mode → ResolvedCopyStrategy
resolve_copy_strategy windows CopyStrategy.buffered mode = ResolvedCopyStrategy.os
resolve_copy_strategy windows CopyStrategy.native mode =
    if windows then ResolvedCopyStrategy.native_preferred else ResolvedCopyStrategy.os
resolve_copy_strategy windows CopyStrategy.auto mode =
    if windows && is_staging mode
    then ResolvedCopyStrategy.native_preferred
    else ResolvedCopyStrategy.os

pub record LocalFsCopyBackend : Type 0 where
  pub file_copier : ResolvedCopyStrategy
  pub durable_writes : Bool

-- `LocalFsCopyBackend::new`.
abbrev pub default_backend : LocalFsCopyBackend
default_backend = record { file_copier = ResolvedCopyStrategy.os; durable_writes = false }

unfoldable pub with_strategy : Bool → CopyStrategy → Mode → LocalFsCopyBackend
unfolding resolve_copy_strategy
with_strategy windows strategy mode = record {
  file_copier = resolve_copy_strategy windows strategy mode;
  durable_writes = not (is_staging mode);
}

unfoldable pub with_transfer_config : Bool → TransferConfig → LocalFsCopyBackend
unfolding with_strategy
with_transfer_config windows config = with_strategy windows config.copy_strategy config.mode
