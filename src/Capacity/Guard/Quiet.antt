-- ===== src/Capacity/Guard/Quiet.antt =====
-- src/cli/commands/shared/capacity_guard.rs: the guard removes only temporary files.
use vibe_caravan.Prelude.{
  ℕ, Bool, true, false, Option, none, some, List, [], ◌∷◌, FilePath, parent, path_eq, join, nat_beq,
}
use vibe_caravan.Error.{IoError, ok, is_not_found}
use vibe_caravan.Models.Batch.{FileEntry, Batch}
use vibe_caravan.Platform.Host.{Host}
use vibe_caravan.Platform.Volume.{Content}
use vibe_caravan.Platform.Steady.{IsSteady}
use vibe_caravan.Exec.Within.{
  Within-pure, Within-raise, Within-ask, Within-lift, Within-if, Within-raise_if,
}
use vibe_caravan.Exec.Quiet.{IsQuiet-preorder, Quiet, Quiet-call, Quiet-attempt, Quiet-bind}
use vibe_caravan.Transfer.AtomicCopy.{temp_destination_path}
use vibe_caravan.Transfer.BatchCopy.Quiet.{IsElsewhere, Quiet-remove}
use vibe_caravan.Capacity.{check_capacity_with_probe_and_backend, zero_batch_error}
use vibe_caravan.Capacity.Guard.{
  TempCleanupSummary, no_cleanup, size_or_zero, count_removed, remove_temp_error, no_space_error,
  no_parent_error, create_destination_error, is_abort, create_destination, create_if_possible,
  probe, check_capacity, ensure_destination_capacity, temp_removed, clear_stale_temp_files,
  clear_stale_batch_temp_files, ensure_destination_capacity_for_batch,
}

module _ {W : Type 0} (host : Host W) (content : FilePath → W → Content) (q : FilePath)
    (steady : IsSteady host content q) where
  Quiet-create_destination :
      (dest : FilePath) (o : Option IoError) → Quiet content q (create_destination host dest o)
  Quiet-create_destination dest none = Within-pure (IsQuiet-preorder content q) tt
  Quiet-create_destination dest (some e) =
      Within-raise (IsQuiet-preorder content q) (create_destination_error dest e)

  Quiet-create_if_possible :
      (dest : FilePath) (above : Bool) → Quiet content q (create_if_possible host dest above)
  Quiet-create_if_possible dest false =
      Within-raise (IsQuiet-preorder content q) (no_parent_error dest)
  Quiet-create_if_possible dest true =
      Quiet-bind content q _ _
        (Quiet-call content q (host.volume.create_dir_all dest) (steady.volume_laws.created dest q))
        λ answer. Quiet-create_destination dest answer

  Quiet-probe : (dest : FilePath) → Quiet content q (probe host dest)
  unfolding probe
  Quiet-probe dest =
      Quiet-bind content q _ _
        (Quiet-bind content q _ _ (Within-ask (IsQuiet-preorder content q) (host.env.exists dest))
          λ here.
            Quiet-bind content q _ _
              (Within-ask (IsQuiet-preorder content q) (host.env.exists (parent dest)))
              λ above.
                Within-if (IsQuiet-preorder content q) here _ _
                  (Within-pure (IsQuiet-preorder content q) tt)
                  (Quiet-create_if_possible dest above))
        λ _. Quiet-attempt content q (host.query_space_info dest) (steady.space_same dest)

  Quiet-ensure_destination_capacity :
      (dest : FilePath) (required : ℕ)
      → Quiet content q (ensure_destination_capacity host dest required)
  unfolding ensure_destination_capacity check_capacity
  Quiet-ensure_destination_capacity dest required =
      Quiet-bind content q _ _
        (Quiet-bind content q _ _
          (Within-raise_if (IsQuiet-preorder content q) (nat_beq required 0) zero_batch_error)
          λ _. Quiet-bind content q _ _ (Quiet-probe dest) λ space.
            Within-lift (IsQuiet-preorder content q) (
              check_capacity_with_probe_and_backend dest required 0 (λ p. ok space)
                host.probe_backend))
        λ report.
          Within-raise_if (IsQuiet-preorder content q) (is_abort report.decision) no_space_error

  Quiet-temp_removed :
      (temp : FilePath) (size : ℕ) (summary : TempCleanupSummary) (o : Option IoError)
      → Quiet content q (temp_removed host temp size summary o)
  Quiet-temp_removed temp size summary none =
      Within-pure (IsQuiet-preorder content q) (count_removed size summary)
  Quiet-temp_removed temp size summary (some e) =
      Within-if (IsQuiet-preorder content q) (is_not_found e) _ _
        (Within-pure (IsQuiet-preorder content q) summary)
        (Within-raise (IsQuiet-preorder content q) (remove_temp_error temp e))

  module _ (dest : FilePath) (elsewhere : IsElsewhere dest q) where
    Quiet-clear_stale_temp_files :
        (files : List FileEntry) (summary : TempCleanupSummary)
        → Quiet content q (clear_stale_temp_files host dest files summary)
    unfolding clear_stale_temp_files
    Quiet-clear_stale_temp_files [] summary = Within-pure (IsQuiet-preorder content q) summary
    Quiet-clear_stale_temp_files (file ∷ files) summary =
        let temp = temp_destination_path (join dest file.relative_path) in
        Quiet-bind content q _ _ (Within-ask (IsQuiet-preorder content q) (host.volume.len temp))
          λ size.
            Quiet-bind content q _ _
              (Quiet-remove host.env host.volume content steady.volume_laws q temp
                (elsewhere.temp file.relative_path))
              λ answer.
                Quiet-bind content q _ _
                  (Quiet-temp_removed temp (size_or_zero size) summary answer)
                  λ summary'. Quiet-clear_stale_temp_files files summary'

    pub Quiet-ensure_destination_capacity_for_batch :
        (bt : Batch) → Quiet content q (ensure_destination_capacity_for_batch host dest bt)
    unfolding ensure_destination_capacity_for_batch clear_stale_batch_temp_files
    Quiet-ensure_destination_capacity_for_batch bt =
        Quiet-bind content q _ _ (Quiet-clear_stale_temp_files bt.files no_cleanup)
          λ _. Quiet-ensure_destination_capacity dest bt.total_bytes
