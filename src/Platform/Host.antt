-- ===== src/Platform/Host.antt =====
-- All that a run asks of the machine: the calls of Platform and Platform/Volume, and those that
-- only some parts use. Directory entries, canonical paths, renderings of paths, JSON and the space
-- of a volume come from the standard library, serde and the platform.
use vibe_caravan.Prelude.{ℕ, ◌⊎◌, Bool, Option, List, Text, String, FilePath}
use vibe_caravan.Error.{Result, IoError, Message}
use vibe_caravan.Platform.{Env, MetadataOf}
use vibe_caravan.Platform.Volume.{Volume}

-- A directory entry whose type could be read: what conflict detection asks of it.
pub record DirEntry : Type 0 where
  pub file_name : Text
  pub is_file : Bool
  pub is_symlink : Bool

pub record DirInfo : Type 0 where
  pub is_dir : Bool
  pub dev : ℕ

-- `serde_json`: a value as bytes, and back or an error with its text.
pub record Json (T : Type 0) : Type 0 where
  pub to_vec : T → List ℕ
  pub from_str : List ℕ → Message ⊎ T

pub record SpaceInfo : Type 0 where
  pub total_bytes : ℕ
  pub available_bytes : ℕ
  pub volume_free_bytes : ℕ

pub record Host (W : Type 0) : Type 0 where
  pub env : Env W
  pub volume : Volume W
  -- `fs::metadata`
  pub metadata : W → MetadataOf
  -- `fs::read_dir(path)`, with no element for an entry that cannot be read
  pub read_dir : FilePath → W → IoError ⊎ List (Option DirEntry)
  -- `fs::read_dir(path)`, with the path of each entry, or the error of one that cannot be read
  pub list_dir : FilePath → W → IoError ⊎ List (IoError ⊎ FilePath)
  -- `fs::symlink_metadata(path)`, the length if it succeeds
  pub symlink_len : FilePath → W → Option ℕ
  -- `query_space_info(path)` of the platform
  pub query_space_info : FilePath → W → Result SpaceInfo × W
  -- `system_space_probe_backend()`
  pub probe_backend : String
  -- `is_windows_build()`
  pub is_windows : Bool
  -- `str::to_lowercase`
  pub to_lowercase : Text → Text
  -- the id of the process and the time in nanoseconds, as `unique_suffix` renders them
  pub unique_suffix : W → Text × W
  -- `File::open(path)`, and if it succeeds the answers of `read`
  pub reads : FilePath → W → IoError ⊎ List (IoError ⊎ List ℕ)
  -- the hash of the crate `blake3`
  pub blake3 : List ℕ → List ℕ
  -- `fs::canonicalize(path)`
  pub canonicalize : FilePath → W → IoError ⊎ FilePath
  -- `path.is_absolute()` and `env::current_dir()`
  pub is_absolute : FilePath → Bool
  pub current_dir : W → IoError ⊎ FilePath
  -- `fs::metadata(path)`, for whether it is a directory and on which device
  pub dir_info : FilePath → W → IoError ⊎ DirInfo
  -- `path.to_string_lossy()`, and a path from a text
  pub to_string_lossy : FilePath → Text
  pub path_of : Text → FilePath
  -- `str::as_bytes`
  pub as_bytes : Text → List ℕ
  -- `fs::write(path, bytes)`
  pub write : FilePath → List ℕ → W → Option IoError × W
