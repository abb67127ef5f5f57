-- ===== src/Resume/StateLoad.antt =====
-- src/resume/state_load.rs and src/state_discovery.rs: the state that a resumed run starts from.
use vibe_caravan.Prelude.{
  ℕ, ◌||◌, Option, none, some, [], ◌∷◌, text, FilePath, join, nat_beq, if◌then◌else◌,
}
use vibe_caravan.Error.{Result, ok, err, CaravanError, Arg, message, display}
use vibe_caravan.Models.State.{MigrationState}
use vibe_caravan.Platform.Host.{Host}
use vibe_caravan.StateStore.{StateJson, load_state}
use vibe_caravan.Resume.Policy.{FailureClass, as_str}

abbrev missing_state_error : FilePath → CaravanError
unfolding as_str
missing_state_error path =
    CaravanError.resume (as_str FailureClass.state_missing)
      (message "state file does not exist: {}" (Arg.path path ∷ []))

abbrev class_of_load : CaravanError → FailureClass
class_of_load (CaravanError.state_read path e) = FailureClass.io_error
class_of_load e = FailureClass.state_corrupted

abbrev classified : Result MigrationState → Result MigrationState
classified (ok s) = ok s
classified (err e) = err (CaravanError.resume (as_str (class_of_load e)) (display e))

abbrev mismatch_error : ℕ → ℕ → CaravanError
mismatch_error recorded given = CaravanError.invalid_arguments (
    message "Batch size mismatch: state has {} bytes, CLI specifies {} bytes"
      (Arg.num recorded ∷ Arg.num given ∷ []))

abbrev check_batch_size : ℕ → Result MigrationState → Result MigrationState
check_batch_size given (err e) = err e
check_batch_size given (ok s) =
    if nat_beq s.batch_size_bytes 0 || nat_beq s.batch_size_bytes given
    then ok s
    else err (mismatch_error s.batch_size_bytes given)

abbrev state_file : FilePath → FilePath
state_file root = join root (text ".caravan" ∷ text "state.json" ∷ [])

module _ {W : Type 0} (host : Host W) (json : StateJson) where
  unfoldable load_state_for_resume : FilePath → W → Result MigrationState
  unfolding load_state missing_state_error
  load_state_for_resume path w =
      if host.env.exists path w
      then classified (load_state host json path w)
      else err (missing_state_error path)

  unfoldable detect_state_file : FilePath → FilePath → W → Option FilePath
  detect_state_file source dest w =
      if host.env.exists (state_file source) w
      then some (state_file source)
      else if host.env.exists (state_file dest) w
      then some (state_file dest)
      else if host.env.exists (state_file []) w
      then some (state_file [])
      else none

  unfoldable check_state_file_compatibility : FilePath → ℕ → W → Result MigrationState
  unfolding load_state
  check_state_file_compatibility state_path cli_batch_size w =
      check_batch_size cli_batch_size (load_state host json state_path w)
