-- ===== src/Transfer/BatchCopy.antt =====
-- src/transfer/batch_copy.rs: the files of a batch, one after the other. A set of directories is
-- the list of its elements.
pub mod Whole
pub mod Complete
pub mod Quiet
use vibe_caravan.Prelude.{
  Bool, true, false, Option, none, some, List, [], ◌∷◌, ◌++◌, FilePath, join, parent, path_eq,
  contains, sort_by, path_cmp, is_empty, if◌then◌else◌,
}
use vibe_caravan.Error.{CaravanError, IoError, Arg, message}
use vibe_caravan.Models.Batch.{FileEntry, Batch}
use vibe_caravan.Platform.{Env}
use vibe_caravan.Platform.Volume.{Volume}
use vibe_caravan.Exec.{Sys, Exec, pure, raise, call, attempt, when, ◌>>=◌, ◌>>◌}
use vibe_caravan.Transfer.{LocalFsCopyBackend}
use vibe_caravan.Transfer.Copier.{FileCopier, copy_file_inner}
use vibe_caravan.Transfer.AtomicCopy.{copy_file_atomically}

abbrev create_error : FilePath → FilePath → IoError → CaravanError
create_error dir rel e =
    CaravanError.io_context
      (message "failed to create directory '{}' while processing file '{}'"
        (Arg.path dir ∷ Arg.path rel ∷ []))
      e

abbrev sync_error : FilePath → IoError → CaravanError
sync_error dir e =
    CaravanError.io_context (message "failed to flush destination directory {}" (Arg.path dir ∷ []))
      e

-- `HashSet::insert`.
abbrev pub insert_path : FilePath → List FilePath → List FilePath
insert_path p set = if contains set p then set else set ++ (p ∷ [])

-- The directory is to be flushed where writes are durable.
abbrev touch : Bool → Option FilePath → List FilePath → List FilePath
touch true (some dir) touched = insert_path dir touched
touch true none touched = touched
touch false dir touched = touched

-- `path.parent()`: only the empty path has none.
abbrev parent_of : FilePath → Option FilePath
parent_of [] = none
parent_of (c ∷ rest) = some (parent (c ∷ rest))

module _ {W : Type 0} where
  abbrev pub raise_some : (IoError → CaravanError) → Option IoError → Exec W (Unit {0})
  raise_some error none = pure tt
  raise_some error (some e) = raise (error e)

module _ {W : Type 0} (env : Env W) (volume : Volume W) where
  -- The loop of `sync_parent_directories`, over the sorted paths.
  abbrev pub sync_each : List FilePath → Exec W (Unit {0})
  sync_each [] = pure tt
  sync_each (dir ∷ dirs) = do
    answer ← call (volume.sync_directory dir)
    raise_some (sync_error dir) answer
    sync_each dirs

  unfoldable pub sync_parent_directories : List FilePath → Exec W (Unit {0})
  sync_parent_directories parents = sync_each (sort_by path_cmp parents)

  -- A directory is created once; the directories created so far come back.
  abbrev pub create_parent : FilePath → Option FilePath → List FilePath → Exec W (List FilePath)
  create_parent rel none created = pure created
  create_parent rel (some dir) created =
      if contains created dir
      then pure created
      else call (volume.create_dir_all dir) >>= λ answer.
          raise_some (create_error dir rel) answer >>= λ done. pure (insert_path dir created)

  -- The body of the loop.
  abbrev pub copy_one :
      FileCopier W → FilePath → FilePath → Bool → FileEntry → List FilePath → Exec W (List FilePath)
  copy_one copier source_root destination_root durable_writes file created = do
    attempt env.check_interrupt
    created' ←
        create_parent file.relative_path (parent_of (join destination_root file.relative_path))
          created
    copy_file_atomically env volume copier (join source_root file.relative_path)
        (join destination_root file.relative_path) durable_writes
    pure created'

  -- The loop, with the directories created and those to flush.
  unfoldable pub copy_files :
      FileCopier W
      → FilePath
      → FilePath
      → Bool
      → List FileEntry
      → List FilePath
      → List FilePath
      → Exec W (List FilePath)
  unfolding copy_file_atomically
  copy_files copier source_root destination_root durable_writes [] created touched = pure touched
  copy_files copier source_root destination_root durable_writes (file ∷ files) created touched = do
    created' ← copy_one copier source_root destination_root durable_writes file created
    copy_files copier source_root destination_root durable_writes files created'
        (touch durable_writes (parent_of (join destination_root file.relative_path)) touched)

  unfoldable pub copy_batch_with_components_and_durability :
      Batch → FilePath → FilePath → FileCopier W → Bool → Exec W (Unit {0})
  unfolding copy_files sync_parent_directories
  copy_batch_with_components_and_durability batch source_root destination_root copier
        durable_writes =
      do
        touched ← copy_files copier source_root destination_root durable_writes batch.files [] []
        when durable_writes (sync_parent_directories touched)

  -- `LocalFsCopyBackend::copy_batch`.
  unfoldable pub copy_batch : LocalFsCopyBackend → Batch → FilePath → FilePath → Exec W (Unit {0})
  unfolding copy_batch_with_components_and_durability copy_file_inner
  copy_batch backend batch source_root destination_root =
      copy_batch_with_components_and_durability batch source_root destination_root
        (copy_file_inner env volume backend.file_copier) backend.durable_writes
