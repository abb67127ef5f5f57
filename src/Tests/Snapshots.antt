-- ===== src/Tests/Snapshots.antt =====
-- The processing of snapshots at a concrete input: a batch whose files are deleted, with a snapshot
-- for every deleted batch, on the disk in memory.
use vibe_caravan.Prelude.{◌≡◌, refl, true, none, some, [], ◌∷◌, Text, text, text_eq, sort_by}
use vibe_caravan.Config.{Mode}
use vibe_caravan.Error.{ok}
use vibe_caravan.Models.Batch.{BatchPhase, BatchState, from_batch}
use vibe_caravan.Models.State.{batch, new}
use vibe_caravan.Models.State.Laws.{IsValid}
use vibe_caravan.Exec.{Sys}
use vibe_caravan.Snapshot.{SnapshotBackend}
use vibe_caravan.Snapshot.Processing.{process_pending_snapshots}
use vibe_caravan.Snapshot.Processing.Only.{IsSnapshotted, process_pending_snapshots-IsSnapshotted}
use vibe_caravan.Tests.Data.{planned_state, approved_1}
use vibe_caravan.Tests.Disk.{Disk, disk_host}

abbrev snapshots : SnapshotBackend Disk
snapshots = record {
  create_snapshot = λ dest root id w. (ok (text "snap"), w);
  now_unix_secs = λ w. (1700000000, w);
}

abbrev deleted_1 : BatchState
deleted_1 = record approved_1 { phase = BatchPhase.delete_completed; deleted = true }

abbrev before : Sys Disk
before = record { state = record planned_state { batches = deleted_1 ∷ [] }; world = λ q. none }

before-IsValid : IsValid before.state
unfolding new from_batch text_eq
before-IsValid = record {
  batches_differ = (refl, tt);
  planned_differ = (refl, (refl, tt));
  batch_map = tt;
  planned_map = tt;
}

abbrev after_processing : Sys Disk
after_processing =
    (process_pending_snapshots disk_host snapshots Mode.migrate (some 1) (text "dst" ∷ []) none
      before).1

process_pending_snapshots-IsSnapshotted_example :
    ((j : Text) → IsSnapshotted before.state.batches after_processing.state.batches j)
    × (after_processing.state.planned_batches ≡ before.state.planned_batches)
process_pending_snapshots-IsSnapshotted_example =
    process_pending_snapshots-IsSnapshotted disk_host snapshots Mode.migrate (some 1)
      (text "dst" ∷ []) none before before-IsValid

-- The snapshot is taken.
marked_1 :
    (process_pending_snapshots disk_host snapshots Mode.migrate
      (some 1)
      (text "dst" ∷ [])
      none
      before).1.state.last_successful_snapshot_name
    ≡ some (text "snap")
unfolding process_pending_snapshots sort_by text_eq batch new
marked_1 = refl
