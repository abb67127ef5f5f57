-- ===== src/Resume/Inspection.antt =====
-- src/resume/inspection.rs: a report on the failed batches, which changes nothing.
use vibe_caravan.Prelude.{
  ℕ, ◌≡◌, refl, ap, Bool, true, false, ◌&&◌, not, Option, none, some, List, [], ◌∷◌, map, Text,
  FilePath, select, length, All,
}
use vibe_caravan.Error.{Result, ok, err, CaravanError, Arg, message, ◌>>=◌}
use vibe_caravan.Platform.{MetadataOf}
use vibe_caravan.Models.Batch.{Batch, BatchPhase, BatchState}
use vibe_caravan.Models.State.{MigrationState, batch_ids, materialize_planned_batch}
use vibe_caravan.Resume.Reconciliation.{ReconciliationResult, reconcile_batch_destination}

pub record FailedBatchInspection : Type 0 where
  pub batch_id : Text
  pub all_destination_files_ready : Bool
  pub missing_in_destination : List FilePath
  pub size_mismatches : List FilePath

pub record FailedBatchInspectionReport : Type 0 where
  pub failed_batch_count : ℕ
  pub failed_batches : List FailedBatchInspection

abbrev pub is_failed : BatchPhase → Bool
is_failed BatchPhase.failed = true
is_failed _ = false

-- `batch.phase == BatchPhase::Failed && !batch.deleted`.
abbrev pub failed_and_kept : BatchState → Bool
failed_and_kept b = is_failed b.phase && not b.deleted

abbrev pub manifest_or_error : Option Batch → Text → Result Batch
manifest_or_error none id = err (
    CaravanError.state_corrupt (
      message "missing immutable batch manifest for {}; cannot inspect failed batch safely"
        (Arg.word id ∷ [])))
manifest_or_error (some b) id = ok b

abbrev inspection : Text → ReconciliationResult → FailedBatchInspection
inspection id r = record {
  batch_id = id;
  all_destination_files_ready = r.all_destination_files_ready;
  missing_in_destination = r.missing_in_destination;
  size_mismatches = r.size_mismatches;
}

unfoldable pub inspect_ids :
    MetadataOf → MigrationState → FilePath → List Text → Result (List FailedBatchInspection)
inspect_ids metadata state dest_root [] = ok []
inspect_ids metadata state dest_root (id ∷ ids) = do
  batch ← manifest_or_error (materialize_planned_batch state id) id
  rest ← inspect_ids metadata state dest_root ids
  ok (inspection id (reconcile_batch_destination metadata batch dest_root) ∷ rest)

unfoldable pub inspect_failed_batches :
    MetadataOf → MigrationState → FilePath → Result FailedBatchInspectionReport
unfolding inspect_ids
inspect_failed_batches metadata state dest_root = do
  found ← inspect_ids metadata state dest_root (batch_ids (select failed_and_kept state.batches))
  ok (record { failed_batch_count = length found; failed_batches = found })

inspect_ids-total :
    (metadata : MetadataOf) (s : MigrationState) (dest : FilePath) (ids : List Text)
    → All (λ id. (b : Batch) × (materialize_planned_batch s id ≡ some b)) ids
    → (found : List FailedBatchInspection) × (inspect_ids metadata s dest ids ≡ ok found)
      × (map (λ i. i.batch_id) found ≡ ids)
unfolding inspect_ids
inspect_ids-total metadata s dest [] h = ([], refl, refl)
inspect_ids-total metadata s dest (id ∷ ids) h =
    let (b, e) = h.0 in
    let (found, f, g) = inspect_ids-total metadata s dest ids h.1 in
    (
      inspection id (reconcile_batch_destination metadata b dest) ∷ found,
      rw (e, f) refl,
      ap (λ l. id ∷ l) g,
    )

-- Where every failed batch that is not deleted has its manifest, the report succeeds. It has one
-- entry for each of them, in the order of the state, and counts them.
pub inspect_failed_batches-total :
    (metadata : MetadataOf) (s : MigrationState) (dest : FilePath)
    → All
        (λ id. (b : Batch) × (materialize_planned_batch s id ≡ some b))
        (batch_ids (select failed_and_kept s.batches))
    → (r : FailedBatchInspectionReport) × (inspect_failed_batches metadata s dest ≡ ok r)
      × (map (λ i. i.batch_id) r.failed_batches ≡ batch_ids (select failed_and_kept s.batches))
      × (r.failed_batch_count ≡ length r.failed_batches)
unfolding inspect_failed_batches
inspect_failed_batches-total metadata s dest h =
    let (found, f, g) =
      inspect_ids-total metadata s dest (batch_ids (select failed_and_kept s.batches)) h in
    (record { failed_batch_count = length found; failed_batches = found }, rw f refl, g, refl)
