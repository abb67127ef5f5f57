-- ===== src/Plan/Manifest.antt =====
-- src/plan/manifest.rs: the persisted batches against the plan of the current source.
pub mod Drift
use vibe_caravan.Prelude.{
  ℕ, ◌+◌, Bool, not, true, false, ◌||◌, Option, none, some, List, [], ◌∷◌, ◌++◌, map, Text, text_eq,
  path_eq, ◌==◌, nat_beq, String, length, contains, if◌then◌else◌,
}
use vibe_caravan.Error.{Result, ok, err, CaravanError, Arg, message, ◌>>=◌, ◌>>◌, fail_if}
use vibe_caravan.Models.HashMap.{HashMap, get, collect}
use vibe_caravan.Models.Batch.{FileEntry, Batch, PlannedFile, PlannedBatch, from_batch}
use vibe_caravan.Plan.Batching.{PlanningSnapshot}

unfoldable pub planned_batches_from_snapshot : PlanningSnapshot → List PlannedBatch
unfolding from_batch
planned_batches_from_snapshot snapshot = map from_batch snapshot.batches

-- `CaravanError::InvalidArguments(format!(template, ...))`.
abbrev drift : String → List Arg → CaravanError
drift t vs = CaravanError.invalid_arguments (message t vs)

abbrev count_changed : ℕ → ℕ → CaravanError
count_changed state current =
    drift "source drift detected: planned manifest batch count changed (state={}, current={})"
      (Arg.num state ∷ Arg.num current ∷ [])

abbrev unknown_batch : Text → CaravanError
unknown_batch id =
    drift "source drift detected: current plan contains unknown batch id {}" (Arg.word id ∷ [])

abbrev metadata_changed : PlannedBatch → Batch → CaravanError
metadata_changed p b =
    drift "source drift detected for {}: batch metadata changed (files {}->{}, bytes {}->{})" (
      Arg.word b.id
      ∷ Arg.num p.file_count
      ∷ Arg.num b.file_count
      ∷ Arg.num p.total_bytes
      ∷ Arg.num b.total_bytes
      ∷ [])

abbrev file_list_changed : PlannedBatch → Batch → CaravanError
file_list_changed p b =
    drift "source drift detected for {}: file list length changed (state={}, current={})"
      (Arg.word b.id ∷ Arg.num (length p.files) ∷ Arg.num (length b.files) ∷ [])

abbrev path_changed : Text → ℕ → PlannedFile → FileEntry → CaravanError
path_changed id index p f =
    drift "source drift detected for {} at file #{index}: path changed (state='{}', current='{}')"
      (Arg.word id ∷ Arg.num index ∷ Arg.path p.relative_path ∷ Arg.path f.relative_path ∷ [])

abbrev size_changed : Text → PlannedFile → FileEntry → CaravanError
size_changed id p f =
    drift "source drift detected for {} at {}: size changed (state={}, current={})"
      (Arg.word id ∷ Arg.path f.relative_path ∷ Arg.num p.size_bytes ∷ Arg.num f.size_bytes ∷ [])

-- The loop over the pairs of files, from `index` on.
unfoldable pub check_files : Text → ℕ → List PlannedFile → List FileEntry → Result (Unit {0})
check_files id index [] fs = ok tt
check_files id index (p ∷ ps) [] = ok tt
check_files id index (p ∷ ps) (f ∷ fs) = do
  fail_if (not (p.relative_path == f.relative_path)) (path_changed id index p f)
  fail_if (not (nat_beq p.size_bytes f.size_bytes)) (size_changed id p f)
  check_files id (index + 1) ps fs

-- The checks of one batch against what was persisted under its id.
unfoldable pub check_batch : Batch → Option PlannedBatch → Result (Unit {0})
unfolding check_files
check_batch b none = err (unknown_batch b.id)
check_batch b (some p) = do
  fail_if (not (nat_beq p.file_count b.file_count) || not (nat_beq p.total_bytes b.total_bytes))
      (metadata_changed p b)
  fail_if (not (nat_beq (length p.files) (length b.files))) (file_list_changed p b)
  check_files b.id 0 p.files b.files

abbrev pub by_id : List PlannedBatch → List (Text × PlannedBatch)
by_id ps = map (λ p. (p.batch_id, p)) ps

-- The loop over the batches of the plan.
unfoldable pub check_batches : HashMap Text PlannedBatch → List Batch → Result (Unit {0})
unfolding check_batch
check_batches persisted [] = ok tt
check_batches persisted (b ∷ bs) = do check_batch b (get persisted b.id); check_batches persisted bs

abbrev stale_batch : Text → CaravanError
stale_batch id =
    drift "source drift detected: persisted manifest contains stale batch id {}" (Arg.word id ∷ [])

-- The loop over the persisted batches. `seen_ids` has the ids of the plan.
unfoldable pub check_stale : List Text → List PlannedBatch → Result (Unit {0})
check_stale seen [] = ok tt
check_stale seen (p ∷ ps) = do
  fail_if (not (contains seen p.batch_id)) (stale_batch p.batch_id)
  check_stale seen ps

unfoldable pub ensure_manifest_matches_snapshot :
    List PlannedBatch → PlanningSnapshot → Result (Unit {0})
unfolding check_batches check_stale
ensure_manifest_matches_snapshot persisted snapshot = do
  fail_if (not (nat_beq (length persisted) (length snapshot.batches)))
      (count_changed (length persisted) (length snapshot.batches))
  check_batches (collect (by_id persisted)) snapshot.batches
  check_stale (map (λ b. b.id) snapshot.batches) persisted
