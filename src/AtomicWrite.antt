-- ===== src/AtomicWrite.antt =====
-- src/atomic_write.rs: a file is written under a name of its own and moved to its place.
pub mod Replaces
pub mod Quiet
use vibe_caravan.Prelude.{
  ℕ, Bool, true, false, Option, none, some, List, [], ◌∷◌, ◌++◌, Text, text, String, FilePath,
  parent, file_name, if◌then◌else◌,
}
use vibe_caravan.Error.{Result, ok, err, CaravanError, IoError, Arg, Message, message}
use vibe_caravan.Platform.Host.{Host}
use vibe_caravan.Exec.{Sys, Exec, pure, raise, ask, call, ok_or_raise, ◌>>=◌, ◌>>◌}

-- The errors name the subject of the write.
abbrev pub write_error : String → String → FilePath → IoError → CaravanError
write_error template subject path e =
    CaravanError.io_context (message template (Arg.lit subject ∷ Arg.path path ∷ [])) e

abbrev pub no_name_error : String → FilePath → CaravanError
no_name_error subject path =
    CaravanError.invalid_arguments
      (message "{} path must include a file name: {}" (Arg.lit subject ∷ Arg.path path ∷ []))

-- `path.with_file_name` of the name with its suffix.
unfoldable pub temp_path_for : FilePath → Text → Text → FilePath
temp_path_for path name unique =
    parent path ++ ((name ++ (text "." ++ (unique ++ text ".tmp"))) ∷ [])

module _ {W : Type 0} (host : Host W) where
  abbrev pub or_fail : (IoError → CaravanError) → Option IoError → Exec W (Unit {0})
  or_fail error none = pure tt
  or_fail error (some e) = raise (error e)

  -- Only the empty path has no parent.
  unfoldable pub create_parent_directory : FilePath → String → Exec W (Unit {0})
  create_parent_directory [] subject = pure tt
  create_parent_directory (c ∷ rest) subject = do
    answer ← call (host.volume.create_dir_all (parent (c ∷ rest)))
    or_fail (write_error "failed to create {} directory {}" subject (parent (c ∷ rest))) answer

  -- Nothing is done on Windows.
  abbrev pub sync_parent : Bool → FilePath → String → Exec W (Unit {0})
  sync_parent true path subject = pure tt
  sync_parent false [] subject = pure tt
  sync_parent false (c ∷ rest) subject = do
    opened ← ask (host.volume.open_directory (parent (c ∷ rest)))
    or_fail
        (write_error "failed to open {} parent directory {} for sync" subject (parent (c ∷ rest)))
        opened
    answer ← call (host.volume.sync_opened (parent (c ∷ rest)))
    or_fail (write_error "failed to sync {} parent directory {}" subject (parent (c ∷ rest))) answer

  unfoldable pub sync_parent_directory : FilePath → String → Exec W (Unit {0})
  sync_parent_directory path subject = sync_parent host.is_windows path subject

  -- The closure of `write_bytes`.
  abbrev pub write_through : FilePath → FilePath → List ℕ → String → Exec W (Unit {0})
  write_through temp path payload subject = do
    created ← call (host.volume.create_new temp)
    or_fail (write_error "failed to create temporary {} file {}" subject temp) created
    written ← call (host.volume.write_all temp payload)
    or_fail (write_error "failed to write temporary {} file {}" subject temp) written
    flushed ← call (host.volume.sync_file_data temp)
    or_fail (write_error "failed to flush temporary {} file {}" subject temp) flushed
    renamed ← call (host.volume.rename temp path)
    or_fail (write_error "failed to replace {} file {}" subject path) renamed
    sync_parent_directory path subject

  -- `if write_result.is_err() { let _ = remove_file(&temp_path); }`.
  abbrev pub remove_on_error : FilePath → Result (Unit {0}) × Sys W → Result (Unit {0}) × Sys W
  remove_on_error temp (ok done, s) = (ok done, s)
  remove_on_error temp (err e, s) =
      (err e, record s { world = (host.env.remove_file temp s.world).1 })

  abbrev pub write_or_remove : FilePath → FilePath → List ℕ → String → Exec W (Unit {0})
  write_or_remove temp path payload subject s =
      remove_on_error temp (write_through temp path payload subject s)

  unfoldable pub write_bytes : FilePath → List ℕ → String → Exec W (Unit {0})
  unfolding create_parent_directory temp_path_for sync_parent_directory
  write_bytes path payload subject = do
    create_parent_directory path subject
    name ← ok_or_raise (file_name path) (no_name_error subject path)
    unique ← call host.unique_suffix
    write_or_remove (temp_path_for path name unique) path payload subject
