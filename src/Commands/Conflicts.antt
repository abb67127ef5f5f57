-- ===== src/Commands/Conflicts.antt =====
-- src/cli/commands/shared/batch_ops.rs, for a batch with naming conflicts at the destination: what
-- is still copied of it, and how it is marked. The report is that of src/conflict.rs.
use vibe_caravan.Prelude.{
  ℕ, ◌≡◌, refl, ap, ◌∙◌, inl, inr, false, ◌&&◌, not, Option, none, some, List, [], ◌∷◌, map, arith,
  Text, text_eq, path_eq, beq_refl, String, FilePath, join, select, contains, length, u64_sum, All,
  Bool-cases,
}
use vibe_caravan.Error.{Result, ok, Arg, Message, message}
use vibe_caravan.Conflict.{ConflictReport}
use vibe_caravan.Models.Batch.{FileEntry, Batch, BatchPhase, BatchState}
use vibe_caravan.Models.State.{batch, upsert_batch}
use vibe_caravan.Models.State.Laws.{IsValid, batch-upsert_batch}
use vibe_caravan.Platform.{Env}
use vibe_caravan.Exec.{Sys, Exec, lift, gets, modify, ◌>>=◌, ◌>>◌}
use vibe_caravan.Cleanup.{push_journal, cleanup_batch}
use vibe_caravan.Cleanup.Effects.{batch-journal}
use vibe_caravan.Cleanup.Safety.{may_delete, batch-id, cleanup_batch-gate}

unfoldable pub non_conflicting_subset_batch : Batch → FilePath → ConflictReport → Batch
non_conflicting_subset_batch bt destination_root report =
    let files =
      select (λ f. not (contains report.existing_files (join destination_root f.relative_path)))
        bt.files in
    record {
      id = bt.id;
      files = files;
      total_bytes = u64_sum (map (λ f. f.size_bytes) files);
      file_count = length files;
    }

abbrev pub mark_conflict : BatchState → BatchState
mark_conflict b = record b { phase = BatchPhase.failed; verification_passed = false }

abbrev pub conflict_context : ConflictReport → ℕ → Message
conflict_context report copied =
    message
      "naming_conflicts={} size_mismatches={} copied_non_conflicting_files={} skipped_conflicting_files={}"
      (Arg.num report.total_conflicts
        ∷ Arg.num (length report.size_mismatches)
        ∷ Arg.num copied
        ∷ Arg.num report.total_conflicts
        ∷ [])

abbrev pub or_missing : Option BatchState → Result BatchState → Result BatchState
or_missing none r = r
or_missing (some b) r = ok b

module _ {W : Type 0} (env : Env W) (missing_state : Text → Result BatchState) where
  -- The journal entry has the time of the same clock as those of the cleanup.
  unfoldable pub mark_batch_failed_for_conflicts : Batch → ConflictReport → ℕ → Exec W (Unit {0})
  mark_batch_failed_for_conflicts bt report copied = do
    found ← gets (λ s. batch s bt.id)
    b ← lift (or_missing found (missing_state bt.id))
    modify (upsert_batch (mark_conflict b))
    push_journal env "copy_failed_conflict" bt.id (conflict_context report copied)

  -- From a valid state that has the batch, the marking succeeds and leaves its record in the phase
  -- failed, not verified and otherwise as it was; and a cleanup of it then changes nothing, even if
  -- it had been approved before.
  pub mark_batch_failed_for_conflicts-gate :
      (bt : Batch) (report : ConflictReport) (copied : ℕ) (b : BatchState) (root : FilePath)
      (context : String) (s : Sys W)
      → IsValid s.state
      → batch s.state bt.id ≡ some b
      → let (r, t) = mark_batch_failed_for_conflicts bt report copied s in
        (r ≡ ok tt)
        × (batch t.state bt.id
            ≡ some (record b { phase = BatchPhase.failed; verification_passed = false }))
        × ((cleanup_batch env bt root context t).1 ≡ t)
  unfolding mark_batch_failed_for_conflicts push_journal
  mark_batch_failed_for_conflicts-gate bt report copied b root context s v found =
      let owner : b.batch_id ≡ bt.id = batch-id s.state bt.id b v found in
      let marked : batch (upsert_batch (mark_conflict b) s.state) bt.id ≡ some (mark_conflict b) =
        batch-upsert_batch (mark_conflict b) s.state bt.id v ∙ rw (owner, beq_refl bt.id) refl in
      rw found (
        refl,
        batch-journal (upsert_batch (mark_conflict b) s.state) bt.id _ ∙ marked,
        cleanup_batch-gate env bt root context _ (
            ap may_delete
              (batch-journal (upsert_batch (mark_conflict b) s.state) bt.id _ ∙ marked)),
      )

-- What is left of the batch has no file at a place that the report lists, its count is that of its
-- files, and a file of the batch is in it exactly if the report does not list its place.
pub non_conflicting_subset_batch-files :
    (bt : Batch) (destination_root : FilePath) (report : ConflictReport)
    → let left = non_conflicting_subset_batch bt destination_root report in
      All
        (λ f. contains report.existing_files (join destination_root f.relative_path) ≡ false)
        left.files
      × (left.file_count ≡ length left.files)
      × ((p : FilePath)
          → contains (map (λ f. f.relative_path) left.files) p
            ≡ contains (map (λ f. f.relative_path) bt.files) p
              && not (contains report.existing_files (join destination_root p)))
unfolding non_conflicting_subset_batch
non_conflicting_subset_batch-files bt destination_root report =
    (kept bt.files, refl, λ p. same bt.files p)
  where
    kept :
        (fs : List FileEntry)
        → All
            (λ f. contains report.existing_files (join destination_root f.relative_path) ≡ false)
            (select
              (λ f. not (contains report.existing_files (join destination_root f.relative_path)))
              fs)
    kept [] = tt
    kept (f ∷ fs) =
        elim (Bool-cases (contains report.existing_files (join destination_root f.relative_path))) [
          | inl taken ↦ rw taken (kept fs)
          | inr open_place ↦ rw open_place (open_place, kept fs)
        ]

    same :
        (fs : List FileEntry) (p : FilePath)
        → contains
            (map
              (λ f. f.relative_path)
              (select
                (λ f. not (contains report.existing_files (join destination_root f.relative_path)))
                fs))
            p
          ≡ contains (map (λ f. f.relative_path) fs) p
            && not (contains report.existing_files (join destination_root p))
    same [] p = refl
    same (f ∷ fs) p =
        ground
          (arith, same fs p, path_eq.beq_iff f.relative_path p, path_eq.beq_iff p f.relative_path)
