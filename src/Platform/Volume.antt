-- ===== src/Platform/Volume.antt =====
-- What the copying of files asks of the operating system. The calls of `std::fs` and of the
-- platform are not part of the program.
use vibe_caravan.Prelude.{
  ℕ, ◌≡◌, true, false, ◌⊎◌, inr, Option, none, some, List, FilePath, path_eq, ◌==◌,
}
use vibe_caravan.Error.{IoError}
use vibe_caravan.Platform.{Env}

pub record Volume (W : Type 0) : Type 0 where
  -- `fs::create_dir_all(path)`, with `none` for success
  pub create_dir_all : FilePath → W → Option IoError × W
  -- `fs::copy(source, destination)`, with the number of bytes for success
  pub os_copy : FilePath → FilePath → W → (IoError ⊎ ℕ) × W
  -- `system_native_copy_file(source, destination)` of the platform
  pub native_copy : FilePath → FilePath → W → (IoError ⊎ ℕ) × W
  -- `File::open(path)?.sync_all()`
  pub sync_file_data : FilePath → W → Option IoError × W
  -- `sync_directory(path)` of the platform
  pub sync_directory : FilePath → W → Option IoError × W
  -- `fs::rename(from, to)`
  pub rename : FilePath → FilePath → W → Option IoError × W
  -- `OpenOptions::new().write(true).create_new(true).open(path)`
  pub create_new : FilePath → W → Option IoError × W
  -- `file.write_all(payload)` on a file that was just created
  pub write_all : FilePath → List ℕ → W → Option IoError × W
  -- `File::open(path)`, which changes nothing, and `sync_all` on what it opened
  pub open_directory : FilePath → W → Option IoError
  pub sync_opened : FilePath → W → Option IoError × W
  -- `fs::read_to_string(path)`, the text as its bytes
  pub read_to_string : FilePath → W → IoError ⊎ List ℕ
  -- `fs::metadata(path)`, the length if it succeeds
  pub len : FilePath → W → Option ℕ

-- A file as a reader finds it: its bytes, or no file.
abbrev pub Content : Type 0
Content = Option (List ℕ)

-- The documented behaviour of these calls, and of `remove_file`, on the bytes of files: a call
-- changes no file but those it names, a copy to another path that succeeds writes what it reads,
-- and a rename is made as a whole or not at all. The paths are those of files, and the program
-- renames no directory.
pub record VolumeLaws {W : Type 0} (e : Env W) (v : Volume W) (content : FilePath → W → Content)
    : Type 0 where
  pub created : (p q : FilePath) (w : W) → content q (v.create_dir_all p w).1 ≡ content q w
  pub os_other :
      (a b q : FilePath) (w : W) → (b == q) ≡ false → content q (v.os_copy a b w).1 ≡ content q w
  pub os_copied :
      (a b : FilePath) (w : W) (n : ℕ)
      → (b == a) ≡ false
      → (v.os_copy a b w).0 ≡ inr n
      → content b (v.os_copy a b w).1 ≡ content a w
  pub native_other :
      (a b q : FilePath) (w : W)
      → (b == q) ≡ false
      → content q (v.native_copy a b w).1 ≡ content q w
  pub native_copied :
      (a b : FilePath) (w : W) (n : ℕ)
      → (b == a) ≡ false
      → (v.native_copy a b w).0 ≡ inr n
      → content b (v.native_copy a b w).1 ≡ content a w
  pub synced : (p q : FilePath) (w : W) → content q (v.sync_file_data p w).1 ≡ content q w
  pub directory_synced : (p q : FilePath) (w : W) → content q (v.sync_directory p w).1 ≡ content q w
  pub renamed :
      (a b : FilePath) (w : W)
      → (v.rename a b w).0 ≡ none
      → content b (v.rename a b w).1 ≡ content a w
  pub rename_other :
      (a b q : FilePath) (w : W)
      → (a == q) ≡ false
      → (b == q) ≡ false
      → content q (v.rename a b w).1 ≡ content q w
  pub rename_failed :
      (a b q : FilePath) (w : W) (x : IoError)
      → (v.rename a b w).0 ≡ some x
      → content q (v.rename a b w).1 ≡ content q w
  pub removed_other :
      (p q : FilePath) (w : W) → (p == q) ≡ false → content q (e.remove_file p w).1 ≡ content q w
  pub interrupt_same : (q : FilePath) (w : W) → content q (e.check_interrupt w).1 ≡ content q w

-- The same for the calls that make a new file, and for reading one back.
pub record WriteLaws {W : Type 0} (e : Env W) (v : Volume W) (content : FilePath → W → Content)
    : Type 0 where
  pub new_other :
      (p q : FilePath) (w : W) → (p == q) ≡ false → content q (v.create_new p w).1 ≡ content q w
  pub written :
      (p : FilePath) (bytes : List ℕ) (w : W)
      → (v.write_all p bytes w).0 ≡ none
      → content p (v.write_all p bytes w).1 ≡ some bytes
  pub write_other :
      (p q : FilePath) (bytes : List ℕ) (w : W)
      → (p == q) ≡ false
      → content q (v.write_all p bytes w).1 ≡ content q w
  pub opened_synced : (p q : FilePath) (w : W) → content q (v.sync_opened p w).1 ≡ content q w
  pub read_back :
      (p : FilePath) (w : W) (bytes : List ℕ)
      → v.read_to_string p w ≡ inr bytes
      → content p w ≡ some bytes
  pub there :
      (p : FilePath) (w : W) (bytes : List ℕ) → content p w ≡ some bytes → e.exists p w ≡ true
