-- ===== src/Snapshot/Validation.antt =====
-- src/snapshot/validation.rs and paths.rs: which snapshot configurations are accepted. The check of
-- the device is made on Linux only.
use vibe_caravan.Prelude.{
  ℕ, ◌⊎◌, inl, inr, Bool, true, false, ◌&&◌, ◌||◌, not, Option, none, some, List, [], ◌∷◌, Text,
  text_eq, path_eq, ◌==◌, FilePath, join, nat_beq, if◌then◌else◌,
}
use vibe_caravan.Config.{Mode}
use vibe_caravan.Error.{
  Result, ok, err, CaravanError, IoError, Arg, Message, message, ◌>>=◌, ◌>>◌, fail_if,
}
use vibe_caravan.Platform.Host.{Host, DirInfo}

abbrev refuse : Message → CaravanError
refuse m = CaravanError.invalid_arguments m

abbrev needs_every_error : CaravanError
needs_every_error = refuse (message "snapshot-dir requires snapshot-every" [])

abbrev staging_error : CaravanError
staging_error = refuse (message "snapshots are only supported in migrate mode" [])

abbrev zero_error : CaravanError
zero_error = refuse (message "snapshot cadence must be greater than zero" [])

abbrev inside_error : FilePath → FilePath → CaravanError
inside_error snapshot_root destination_root = refuse (
    message
      "snapshot destination must not be inside migration destination: snapshot='{}', destination='{}'"
      (Arg.path snapshot_root ∷ Arg.path destination_root ∷ []))

abbrev inaccessible_error : FilePath → IoError → CaravanError
inaccessible_error path e =
    refuse (message "path '{}' is not accessible: {}" (Arg.path path ∷ Arg.cause e ∷ []))

abbrev root_inaccessible_error : FilePath → IoError → CaravanError
root_inaccessible_error path e =
    refuse
      (message "snapshot destination '{}' is not accessible: {}" (Arg.path path ∷ Arg.cause e ∷ []))

abbrev not_directory_error : FilePath → CaravanError
not_directory_error path =
    refuse (message "snapshot destination must be an existing directory: '{}'" (Arg.path path ∷ []))

abbrev probe_error : FilePath → IoError → CaravanError
probe_error path e = refuse (
    message "destination '{}' is not accessible for snapshot checks: {}"
      (Arg.path path ∷ Arg.cause e ∷ []))

abbrev device_error : FilePath → FilePath → CaravanError
device_error snapshot_root destination_root = refuse (
    message "snapshot destination '{}' must be on the same filesystem as destination '{}'"
      (Arg.path snapshot_root ∷ Arg.path destination_root ∷ []))

abbrev no_current_dir_error : FilePath → IoError → CaravanError
no_current_dir_error path e = refuse (
    message "failed to read current directory while resolving '{}': {}"
      (Arg.path path ∷ Arg.cause e ∷ []))

abbrev no_path_error : FilePath → CaravanError
no_path_error path = refuse (message "path '{}' and its parents do not exist" (Arg.path path ∷ []))

-- `candidate.starts_with(ancestor)`, by components.
unfoldable pub starts_with : FilePath → FilePath → Bool
unfolding text_eq
starts_with candidate [] = true
starts_with [] (c ∷ ancestor) = false
starts_with (d ∷ candidate) (c ∷ ancestor) = d == c && starts_with candidate ancestor

unfoldable pub path_within_or_equal : FilePath → FilePath → Bool
unfolding starts_with path_eq
path_within_or_equal candidate ancestor = candidate == ancestor || starts_with candidate ancestor

abbrev or_error : {A : Type 0} → (IoError → CaravanError) → IoError ⊎ A → Result A
or_error error (inl e) = err (error e)
or_error error (inr a) = ok a

module _ {W : Type 0} (host : Host W) where
  -- The path and its ancestors, the longest first.
  unfoldable pub existing_ancestor : FilePath → List Text → FilePath → W → Result FilePath
  existing_ancestor path [] tried w =
      if host.env.exists tried w then ok tried else err (no_path_error path)
  existing_ancestor path (c ∷ rest) tried w =
      let deeper = existing_ancestor path rest (join tried (c ∷ [])) w in
      elim deeper [
        | ok found ↦ ok found
        | err e ↦ if host.env.exists tried w then ok tried else err (no_path_error path)
      ]

  unfoldable pub resolve_existing_path : FilePath → W → Result FilePath
  unfolding existing_ancestor
  resolve_existing_path path w = existing_ancestor path path [] w

  unfoldable pub canonical_path : FilePath → W → Result FilePath
  canonical_path path w = or_error (inaccessible_error path) (host.canonicalize path w)

  abbrev absolute_path : FilePath → W → Result FilePath
  absolute_path path w =
      if host.is_absolute path
      then ok path
      else or_error (no_current_dir_error path) (host.current_dir w) >>= λ dir. ok (join dir path)

  unfoldable pub canonical_path_for_maybe_missing : FilePath → W → Result FilePath
  unfolding canonical_path
  canonical_path_for_maybe_missing path w =
      if host.env.exists path w then canonical_path path w else absolute_path path w

  abbrev check_device : FilePath → FilePath → DirInfo → W → Result (Unit {0})
  unfolding resolve_existing_path
  check_device snapshot_root destination_root meta w = do
    probe ← resolve_existing_path destination_root w
    other ← or_error (probe_error probe) (host.dir_info probe w)
    fail_if (not (nat_beq meta.dev other.dev)) (device_error snapshot_root destination_root)

  -- The checks of a snapshot directory.
  unfoldable pub check_root : FilePath → FilePath → W → Result (Unit {0})
  unfolding check_device canonical_path canonical_path_for_maybe_missing path_within_or_equal
  check_root snapshot_root destination_root w = do
    snapshot ← canonical_path snapshot_root w
    destination ← canonical_path_for_maybe_missing destination_root w
    fail_if (path_within_or_equal snapshot destination)
        (inside_error snapshot_root destination_root)
    meta ← or_error (root_inaccessible_error snapshot_root) (host.dir_info snapshot_root w)
    fail_if (not meta.is_dir) (not_directory_error snapshot_root)
    if host.is_windows then ok tt else check_device snapshot_root destination_root meta w

  abbrev check_optional_root : Option FilePath → FilePath → W → Result (Unit {0})
  check_optional_root none destination_root w = ok tt
  check_optional_root (some snapshot_root) destination_root w =
      check_root snapshot_root destination_root w

  unfoldable pub validate_snapshot_configuration :
      Mode → Option ℕ → FilePath → Option FilePath → W → Result (Unit {0})
  unfolding check_root
  validate_snapshot_configuration mode none destination_root (some root) w = err needs_every_error
  validate_snapshot_configuration Mode.staging none destination_root none w = ok tt
  validate_snapshot_configuration Mode.migrate none destination_root none w = ok tt
  validate_snapshot_configuration Mode.staging (some n) destination_root root w = err staging_error
  validate_snapshot_configuration Mode.migrate (some n) destination_root root w = do
    fail_if (nat_beq n 0) zero_error
    check_optional_root root destination_root w
