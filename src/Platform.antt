-- ===== src/Platform.antt =====
-- What the program asks of the operating system and of the operator, as operations on a world.
-- The signal handler, the clock, the file system and the terminal are not part of the program.
pub mod Volume
pub mod Host
pub mod Steady
use vibe_caravan.Prelude.{ℕ, ◌≡◌, Bool, false, Option, none, Text, FilePath, path_eq, ◌==◌}
use vibe_caravan.Error.{Result, IoError}
use vibe_caravan.Models.State.{MigrationState}

pub record Metadata : Type 0 where
  pub is_file : Bool
  pub len : ℕ

-- `fs::metadata(path)`, with `none` for an error.
abbrev pub MetadataOf : Type 0
MetadataOf = FilePath → Option Metadata

pub record Env (W : Type 0) : Type 0 where
  -- `path.exists()`
  pub exists : FilePath → W → Bool
  -- `FileRemover::remove_file`, with `none` for success
  pub remove_file : FilePath → W → Option IoError × W
  -- `now_unix_secs()`
  pub now_unix_secs : W → ℕ × W
  -- `check_interrupt()`, which fails once a shutdown is requested
  pub check_interrupt : W → Result (Unit {0}) × W
  -- a line of standard input, after the prompt
  pub read_line : W → Result Text × W
  -- `persist_state(&state)`
  pub persist : MigrationState → W → Result (Unit {0}) × W

-- The documented behaviour of these operations on which files exist. Two spellings of one file
-- are one path.
pub record EnvLaws {W : Type 0} (e : Env W) : Type 0 where
  pub removed :
      (p : FilePath) (w : W)
      → (e.remove_file p w).0 ≡ none
      → e.exists p (e.remove_file p w).1 ≡ false
  pub removes_only :
      (p q : FilePath) (w : W) → (p == q) ≡ false → e.exists q (e.remove_file p w).1 ≡ e.exists q w
  pub creates_nothing :
      (p q : FilePath) (w : W) → e.exists q w ≡ false → e.exists q (e.remove_file p w).1 ≡ false
  pub now_keeps : (q : FilePath) (w : W) → e.exists q (e.now_unix_secs w).1 ≡ e.exists q w
  pub interrupt_keeps : (q : FilePath) (w : W) → e.exists q (e.check_interrupt w).1 ≡ e.exists q w
  pub read_keeps : (q : FilePath) (w : W) → e.exists q (e.read_line w).1 ≡ e.exists q w

-- Writing the state neither makes nor removes the file.
abbrev pub PersistKeeps : {W : Type 0} → Env W → FilePath → Type 0
PersistKeeps {W = W} e q =
    (s : MigrationState) (w : W) → e.exists q (e.persist s w).1 ≡ e.exists q w
