-- ===== src/Transfer/AtomicCopy.antt =====
-- src/transfer/atomic_copy.rs: a file is copied to a temporary file beside its place, and moved
-- there when it is whole.
pub mod Lands
use vibe_caravan.Prelude.{
  ℕ, ◌⊎◌, inl, inr, Bool, Option, none, some, List, [], ◌∷◌, ◌++◌, Text, text, FilePath, parent,
  file_name, if◌then◌else◌,
}
use vibe_caravan.Error.{CaravanError, IoError, is_not_found, Arg, Message, message}
use vibe_caravan.Platform.{Env}
use vibe_caravan.Platform.Volume.{Volume}
use vibe_caravan.Exec.{Sys, Exec, pure, raise, call, when, ◌>>=◌, ◌>>◌}
use vibe_caravan.Transfer.Copier.{FileCopier}

abbrev part_suffix : Text
part_suffix = text ".caravan.part"

abbrev temp_name : Option Text → Text
temp_name (some name) = name ++ part_suffix
temp_name none = part_suffix

-- In a list of components, a path without a parent has the empty one.
unfoldable pub temp_destination_path : FilePath → FilePath
temp_destination_path destination = parent destination ++ (temp_name (file_name destination) ∷ [])

abbrev pub stale_error : FilePath → FilePath → IoError → CaravanError
stale_error destination temp e =
    CaravanError.io_context
      (message "failed to remove stale temporary file for {} ({})"
        (Arg.path destination ∷ Arg.path temp ∷ []))
      e

abbrev pub copy_error : FilePath → FilePath → IoError → CaravanError
copy_error source destination e =
    CaravanError.io_context
      (message "failed to copy {} to {}" (Arg.path source ∷ Arg.path destination ∷ [])) e

abbrev pub flush_error : FilePath → IoError → CaravanError
flush_error destination e =
    CaravanError.io_context
      (message "failed to flush copied file before finalize {}" (Arg.path destination ∷ [])) e

abbrev pub finalize_error : FilePath → IoError → CaravanError
finalize_error destination e =
    CaravanError.io_context
      (message "failed to finalize copied file {}" (Arg.path destination ∷ [])) e

abbrev pub failure_of : IoError ⊎ ℕ → Option IoError
failure_of (inl e) = some e
failure_of (inr bytes) = none

module _ {W : Type 0} (env : Env W) (volume : Volume W) where
  -- An answer of `remove_file` where a missing file is no error.
  abbrev pub unless_missing : (IoError → CaravanError) → Option IoError → Exec W (Unit {0})
  unless_missing error none = pure tt
  unless_missing error (some e) = if is_not_found e then pure tt else raise (error e)

  unfoldable pub clear_stale_temp_file : FilePath → FilePath → Exec W (Unit {0})
  clear_stale_temp_file temp destination = do
    answer ← call (env.remove_file temp)
    unless_missing (stale_error destination temp) answer

  -- `if let Err(source) = step { let _ = remove_file(&temp); return Err(...) }`.
  abbrev pub or_discard : FilePath → (IoError → CaravanError) → Option IoError → Exec W (Unit {0})
  or_discard temp error none = pure tt
  or_discard temp error (some e) = call (env.remove_file temp) >>= λ ignored. raise (error e)

  abbrev pub copy_to_temp : FileCopier W → FilePath → FilePath → FilePath → Exec W (Unit {0})
  copy_to_temp copier source temp destination = do
    answer ← call (copier source temp)
    or_discard temp (copy_error source destination) (failure_of answer)

  abbrev pub flush_temp : FilePath → FilePath → Exec W (Unit {0})
  flush_temp temp destination = do
    answer ← call (volume.sync_file_data temp)
    or_discard temp (flush_error destination) answer

  abbrev pub finalize_temp : FilePath → FilePath → Exec W (Unit {0})
  finalize_temp temp destination = do
    answer ← call (volume.rename temp destination)
    or_discard temp (finalize_error destination) answer

  abbrev pub copy_through : FileCopier W → FilePath → FilePath → FilePath → Bool → Exec W (Unit {0})
  copy_through copier source temp destination durable_writes = do
    clear_stale_temp_file temp destination
    copy_to_temp copier source temp destination
    when durable_writes (flush_temp temp destination)
    finalize_temp temp destination

  unfoldable pub copy_file_atomically :
      FileCopier W → FilePath → FilePath → Bool → Exec W (Unit {0})
  unfolding temp_destination_path clear_stale_temp_file
  copy_file_atomically copier source destination durable_writes =
      copy_through copier source (temp_destination_path destination) destination durable_writes
