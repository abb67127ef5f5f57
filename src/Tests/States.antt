-- ===== src/Tests/States.antt =====
-- The theorems on the state and on a resumed run, at a state with two batches.
use vibe_caravan.Prelude.{
  ◌≡◌, refl, ◌↔◌, ◌⊎◌, ◌||◌, true, false, none, some, [], ◌∷◌, map, text, FilePath, text_eq,
  path_eq, ◌==◌, if◌then◌else◌, All, is_empty,
}
use vibe_caravan.Error.{ok}
use vibe_caravan.Platform.{MetadataOf}
use vibe_caravan.Models.HashMap.{get}
use vibe_caravan.Models.Batch.{BatchPhase, to_batch, from_batch}
use vibe_caravan.Models.Index.{Positions, ensure_index_consistent}
use vibe_caravan.Models.State.{
  MigrationState, new, batch, batch_ids, materialize_planned_batch, upsert_batch, approve_batches,
}
use vibe_caravan.Models.State.Keyed.{find_id, upsert}
use vibe_caravan.Models.State.Laws.{
  IsValid, batch_id, batch-eq-find_id, upsert_batch-batches, upsert_batch-IsValid,
  batch-upsert_batch,
}
use vibe_caravan.Models.State.Approval.{approve_listed, approve_batches-batches}
use vibe_caravan.Resume.Reconciliation.{
  ReconciliationResult, reconcile_batch_destination, IsReady, paths_where, is_missing,
  is_mismatched, reconcile_correct,
}
use vibe_caravan.Resume.Planning.{
  ResumeStepPlan, plan_resume_step_with_recovery, MayDelete, is_copied, plan_resume_step-delete_iff,
  plan_resume_step-copy,
}
use vibe_caravan.Resume.Policy.{
  ResumeOptions, require_delete_permission_for_resume, require_delete_permission_iff,
}
use vibe_caravan.Commands.OperatorReview.{
  ensure_no_operator_review_blocks_with_policy, IsClear, ensure_no_operator_review_blocks_iff,
}
use vibe_caravan.Tests.Data.{
  id_1, id_2, batch_1, approved_1, verified_2, failed_1, planned_state, approved_state,
  approved_state-IsValid, path_a, path_b,
}

batch_of_id_2 : batch approved_state id_2 ≡ some verified_2
unfolding batch upsert_batch text_eq new ensure_index_consistent
batch_of_id_2 = refl

batch-eq-find_id_example : batch approved_state id_2 ≡ find_id batch_id approved_state.batches id_2
batch-eq-find_id_example = batch-eq-find_id approved_state id_2 approved_state-IsValid

upsert_batch-batches_example :
    (upsert_batch failed_1 approved_state).batches ≡ upsert batch_id failed_1 approved_state.batches
upsert_batch-batches_example = upsert_batch-batches failed_1 approved_state approved_state-IsValid

upsert_batch-IsValid_example : IsValid (upsert_batch failed_1 approved_state)
upsert_batch-IsValid_example = upsert_batch-IsValid failed_1 approved_state approved_state-IsValid

batch-upsert_batch_example :
    batch (upsert_batch failed_1 approved_state) id_2
    ≡ (if failed_1.batch_id == id_2 then some failed_1 else batch approved_state id_2)
batch-upsert_batch_example = batch-upsert_batch failed_1 approved_state id_2 approved_state-IsValid

-- An index whose only entry points at the place of another batch.
abbrev stale : Positions
stale = record { pos_by_id = (id_1, 1) ∷ []; ids_in_order = id_2 ∷ [] }

abbrev one_batch : MigrationState
one_batch = record planned_state { batches = approved_1 ∷ [] }

found_at_zero :
    get (ensure_index_consistent one_batch.batch_index (batch_ids one_batch.batches)).pos_by_id id_1
    ≡ some 0
unfolding ensure_index_consistent text_eq new
found_at_zero = refl

approve_batches-batches_example :
    (approve_batches (id_2 ∷ []) approved_state).batches
    ≡ map (approve_listed (id_2 ∷ [])) approved_state.batches
approve_batches-batches_example =
    approve_batches-batches (id_2 ∷ []) approved_state approved_state-IsValid

-- A destination that has one of the two files of the batch.
abbrev half_copied : MetadataOf
half_copied p =
    if p == (text "dest" ∷ path_a) then some (record { is_file = true; len = 5 }) else none

abbrev dest : FilePath
dest = text "dest" ∷ []

reconcile_correct_example :
    let r = reconcile_batch_destination half_copied batch_1 dest in
    (r.missing_in_destination ≡ paths_where (is_missing half_copied dest) batch_1.files)
    × (r.size_mismatches ≡ paths_where (is_mismatched half_copied dest) batch_1.files)
    × ((r.all_destination_files_ready ≡ true) ↔ All (IsReady half_copied dest) batch_1.files)
reconcile_correct_example = reconcile_correct half_copied batch_1 dest

abbrev half_ready : ReconciliationResult
half_ready = record {
  all_destination_files_ready = false;
  missing_in_destination = path_b ∷ [];
  size_mismatches = [];
}

plan_resume_step-delete_example :
    (plan_resume_step_with_recovery approved_1 half_ready batch_1 false
      ≡ ResumeStepPlan.delete_source)
    ↔ MayDelete approved_1
plan_resume_step-delete_example = plan_resume_step-delete_iff approved_1 half_ready batch_1 false

recovery_copies :
    plan_resume_step_with_recovery failed_1 half_ready batch_1 true ≡ ResumeStepPlan.copy_batch
unfolding plan_resume_step_with_recovery
recovery_copies = refl

plan_resume_step-copy_example :
    (is_copied failed_1.phase ≡ false)
    × ((failed_1.phase ≡ BatchPhase.planned) ⊎ (half_ready.all_destination_files_ready ≡ false))
    × (failed_1.phase ≡ BatchPhase.failed
        → (true ≡ true) × (is_empty half_ready.size_mismatches ≡ true))
plan_resume_step-copy_example =
    plan_resume_step-copy failed_1 half_ready batch_1 true recovery_copies

abbrev explicit : ResumeOptions
explicit = record { interactive = false; explicit_delete_approval = true }

require_delete_permission_example :
    (require_delete_permission_for_resume verified_2 explicit ≡ ok tt) ↔ (
      (verified_2.deleted ≡ true)
      ⊎ ((verified_2.verification_passed ≡ true)
          × ((verified_2.approved_for_delete
                || (explicit.explicit_delete_approval || explicit.interactive))
              ≡ true)))
require_delete_permission_example = require_delete_permission_iff verified_2 explicit

abbrev failed_state : MigrationState
failed_state = record planned_state { batches = failed_1 ∷ verified_2 ∷ [] }

manifest_of_failed :
    materialize_planned_batch failed_state id_1 ≡ some (to_batch (from_batch batch_1))
unfolding materialize_planned_batch text_eq new from_batch to_batch
manifest_of_failed = refl

ensure_no_operator_review_blocks_example :
    (ensure_no_operator_review_blocks_with_policy failed_state
        (record { allow_failed_batches = true })
      ≡ ok tt)
    ↔ All (IsClear true) failed_state.batches
ensure_no_operator_review_blocks_example = ensure_no_operator_review_blocks_iff failed_state true
