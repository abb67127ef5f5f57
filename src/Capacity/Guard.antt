-- ===== src/Capacity/Guard.antt =====
-- src/cli/commands/shared/capacity_guard.rs and the probe of src/capacity/mod.rs: temporary files
-- that an earlier run left are removed, and the batch must fit. What is printed is not modelled.
pub mod Quiet
use vibe_caravan.Prelude.{
  ℕ, ◌+◌, Bool, true, false, Option, none, some, List, [], ◌∷◌, FilePath, parent, join, nat_beq,
  saturating_add, if◌then◌else◌,
}
use vibe_caravan.Error.{ok, CaravanError, IoError, is_not_found, Arg, message}
use vibe_caravan.Models.Batch.{FileEntry, Batch}
use vibe_caravan.Platform.Host.{Host, SpaceInfo}
use vibe_caravan.Exec.{Exec, pure, raise, lift, ask, call, attempt, raise_if, ◌>>=◌, ◌>>◌}
use vibe_caravan.Transfer.AtomicCopy.{temp_destination_path}
use vibe_caravan.Capacity.{
  CapacityDecision, CapacityReport, check_capacity_with_probe_and_backend, zero_batch_error,
}

abbrev pub create_destination_error : FilePath → IoError → CaravanError
create_destination_error dest e =
    CaravanError.io_context
      (message "failed to create destination directory {}" (Arg.path dest ∷ [])) e

abbrev pub no_parent_error : FilePath → CaravanError
no_parent_error dest = CaravanError.invalid_arguments (
    message
      "destination directory {} does not exist and cannot be created because parent directory {} does not exist"
      (Arg.path dest ∷ Arg.path (parent dest) ∷ []))

abbrev pub remove_temp_error : FilePath → IoError → CaravanError
remove_temp_error temp e =
    CaravanError.io_context
      (message "failed to remove stale temporary file before capacity check {}"
        (Arg.path temp ∷ []))
      e

abbrev pub no_space_error : CaravanError
no_space_error = CaravanError.policy_blocked (message "insufficient destination space" [])

pub record TempCleanupSummary : Type 0 where
  pub removed_count : ℕ
  pub removed_bytes : ℕ

abbrev pub no_cleanup : TempCleanupSummary
no_cleanup = record { removed_count = 0; removed_bytes = 0 }

abbrev pub size_or_zero : Option ℕ → ℕ
size_or_zero none = 0
size_or_zero (some n) = n

abbrev pub count_removed : ℕ → TempCleanupSummary → TempCleanupSummary
count_removed size summary = record {
  removed_count = summary.removed_count + 1;
  removed_bytes = saturating_add summary.removed_bytes size;
}

abbrev pub is_abort : CapacityDecision → Bool
is_abort CapacityDecision.abort = true
is_abort CapacityDecision.proceed = false

module _ {W : Type 0} (host : Host W) where
  abbrev pub create_destination : FilePath → Option IoError → Exec W (Unit {0})
  create_destination dest none = pure tt
  create_destination dest (some e) = raise (create_destination_error dest e)

  -- The branch for a destination that does not exist; a path of one component or none has no
  -- parent that is looked for.
  abbrev pub create_if_possible : FilePath → Bool → Exec W (Unit {0})
  create_if_possible dest false = raise (no_parent_error dest)
  create_if_possible dest true = do
    answer ← call (host.volume.create_dir_all dest)
    create_destination dest answer

  abbrev pub ensure_destination_exists : FilePath → Exec W (Unit {0})
  ensure_destination_exists dest = do
    here ← ask (host.env.exists dest)
    above ← ask (host.env.exists (parent dest))
    if here then pure tt else create_if_possible dest above

  -- `SystemSpaceProbe::probe`.
  unfoldable pub probe : FilePath → Exec W SpaceInfo
  probe dest = do ensure_destination_exists dest; attempt (host.query_space_info dest)

  -- `check_capacity`: the probe is asked where the batch has bytes.
  unfoldable pub check_capacity : FilePath → ℕ → ℕ → Exec W CapacityReport
  unfolding probe
  check_capacity dest planned reserve = do
    raise_if (nat_beq planned 0) zero_batch_error
    space ← probe dest
    lift (
        check_capacity_with_probe_and_backend dest planned reserve (λ p. ok space)
          host.probe_backend)

  unfoldable pub ensure_destination_capacity : FilePath → ℕ → Exec W (Unit {0})
  unfolding check_capacity
  ensure_destination_capacity dest required = do
    report ← check_capacity dest required 0
    raise_if (is_abort report.decision) no_space_error

  abbrev pub temp_removed :
      FilePath → ℕ → TempCleanupSummary → Option IoError → Exec W TempCleanupSummary
  temp_removed temp size summary none = pure (count_removed size summary)
  temp_removed temp size summary (some e) =
      if is_not_found e then pure summary else raise (remove_temp_error temp e)

  -- The loop, over the files that are left.
  unfoldable pub clear_stale_temp_files :
      FilePath → List FileEntry → TempCleanupSummary → Exec W TempCleanupSummary
  unfolding temp_destination_path
  clear_stale_temp_files dest [] summary = pure summary
  clear_stale_temp_files dest (file ∷ files) summary = do
    size ← ask (host.volume.len (temp_destination_path (join dest file.relative_path)))
    answer ← call (host.env.remove_file (temp_destination_path (join dest file.relative_path)))
    summary' ←
        temp_removed (temp_destination_path (join dest file.relative_path)) (size_or_zero size)
          summary answer
    clear_stale_temp_files dest files summary'

  unfoldable pub clear_stale_batch_temp_files : FilePath → Batch → Exec W TempCleanupSummary
  unfolding clear_stale_temp_files
  clear_stale_batch_temp_files dest batch = clear_stale_temp_files dest batch.files no_cleanup

  unfoldable pub ensure_destination_capacity_for_batch : FilePath → Batch → Exec W (Unit {0})
  unfolding clear_stale_batch_temp_files ensure_destination_capacity
  ensure_destination_capacity_for_batch dest batch = do
    clear_stale_batch_temp_files dest batch
    ensure_destination_capacity dest batch.total_bytes
