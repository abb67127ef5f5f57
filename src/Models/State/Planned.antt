-- ===== src/Models/State/Planned.antt =====
-- src/models/state.rs: the upsert of a planned batch, as Laws has it for the state of a batch.
use vibe_caravan.Prelude.{
  ℕ, ◌≡◌, refl, ap, ◌∙◌, Option, none, some, Text, text_eq, ◌==◌, if◌then◌else◌,
}
use vibe_caravan.Models.HashMap.{get, insert-IsNodup}
use vibe_caravan.Models.Batch.{PlannedBatch}
use vibe_caravan.Models.Index.{ensure_index_consistent}
use vibe_caravan.Models.Index.Position.{IsMap, ensure-IsMap}
use vibe_caravan.Models.Index.Ensure.{ensure-position}
use vibe_caravan.Models.State.{
  MigrationState, planned_ids, planned_batch, upsert_planned_batch, upsert_planned_at,
  ensure_planned_batch_index_consistent,
}
use vibe_caravan.Models.State.Keyed.{
  upsert, write_at, write_at-position, find_id-upsert, IsNodup-upsert,
}
use vibe_caravan.Models.State.Laws.{IsValid, planned_id, planned_batch-eq-find_id}

abbrev found : PlannedBatch → MigrationState → Option ℕ
found p s =
    get (ensure_index_consistent s.planned_index (planned_ids s.planned_batches)).pos_by_id
      p.batch_id

upsert_planned_at-planned :
    (p : PlannedBatch) (s : MigrationState) (o : Option ℕ)
    → (upsert_planned_at p s o).planned_batches ≡ write_at planned_id p s.planned_batches o
upsert_planned_at-planned p s none = refl
upsert_planned_at-planned p s (some i) = refl

upsert_planned_at-IsMap :
    (p : PlannedBatch) (s : MigrationState) (o : Option ℕ)
    → IsMap s.planned_index
    → IsMap (upsert_planned_at p s o).planned_index
upsert_planned_at-IsMap p s none m = insert-IsNodup s.planned_index.pos_by_id p.batch_id _ m
upsert_planned_at-IsMap p s (some i) m = m

-- In a valid state an upsert replaces the planned batch with that id, or puts it at the end.
pub upsert_planned_batch-planned :
    (p : PlannedBatch) (s : MigrationState)
    → IsValid s
    → (upsert_planned_batch p s).planned_batches ≡ upsert planned_id p s.planned_batches
unfolding upsert_planned_batch
upsert_planned_batch-planned p s v =
    upsert_planned_at-planned p (ensure_planned_batch_index_consistent s) (found p s)
    ∙ ap (write_at planned_id p s.planned_batches) (
        ensure-position s.planned_index (planned_ids s.planned_batches) p.batch_id v.planned_map
          v.planned_differ)
    ∙ write_at-position planned_id p s.planned_batches

upsert_planned_at-batches :
    (p : PlannedBatch) (s : MigrationState) (o : Option ℕ)
    → ((upsert_planned_at p s o).batches ≡ s.batches)
      × ((upsert_planned_at p s o).batch_index ≡ s.batch_index)
upsert_planned_at-batches p s none = (refl, refl)
upsert_planned_at-batches p s (some i) = (refl, refl)

pub upsert_planned_batch-batches :
    (p : PlannedBatch) (s : MigrationState)
    → ((upsert_planned_batch p s).batches ≡ s.batches)
      × ((upsert_planned_batch p s).batch_index ≡ s.batch_index)
unfolding upsert_planned_batch
upsert_planned_batch-batches p s =
    upsert_planned_at-batches p (ensure_planned_batch_index_consistent s) (found p s)

pub upsert_planned_batch-IsValid :
    (p : PlannedBatch) (s : MigrationState) → IsValid s → IsValid (upsert_planned_batch p s)
upsert_planned_batch-IsValid p s v = record {
  batches_differ = rw ((upsert_planned_batch-batches p s).0) v.batches_differ;
  planned_differ =
      rw (upsert_planned_batch-planned p s v)
        (IsNodup-upsert planned_id p s.planned_batches v.planned_differ);
  batch_map = rw ((upsert_planned_batch-batches p s).1) v.batch_map;
  planned_map =
      unfold upsert_planned_batch in
      upsert_planned_at-IsMap p (ensure_planned_batch_index_consistent s) (found p s)
        (ensure-IsMap s.planned_index (planned_ids s.planned_batches) v.planned_map);
}

-- After an upsert into a valid state its id has the new planned batch, and every other id what it had.
pub planned_batch-upsert_planned_batch :
    (p : PlannedBatch) (s : MigrationState) (j : Text)
    → IsValid s
    → planned_batch (upsert_planned_batch p s) j
      ≡ (if p.batch_id == j then some p else planned_batch s j)
planned_batch-upsert_planned_batch p s j v =
    rw
      (
        planned_batch-eq-find_id (upsert_planned_batch p s) j (upsert_planned_batch-IsValid p s v),
        upsert_planned_batch-planned p s v,
        planned_batch-eq-find_id s j v,
      )
      (find_id-upsert planned_id p s.planned_batches j)
