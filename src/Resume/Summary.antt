-- ===== src/Resume/Summary.antt =====
-- src/resume/summary.rs and src/transfer/summary.rs: the counts that a run reports.
use vibe_caravan.Prelude.{ℕ, ◌+◌, ◌≡◌, refl, Bool, not, List, [], ◌∷◌, arith, Text, select, length}
use vibe_caravan.Models.Batch.{BatchState}
use vibe_caravan.Models.State.{MigrationState}
use vibe_caravan.Plan.Batching.{PlanningSnapshot}

abbrev pub is_deleted : BatchState → Bool
is_deleted b = b.deleted

abbrev pub is_kept : BatchState → Bool
is_kept b = not b.deleted

pub record ResumeStateSummary : Type 0 where
  pub mode : Text
  pub source : Text
  pub destination : Text
  pub total_batches : ℕ
  pub completed_batches : ℕ

unfoldable pub summarize_resume_state : MigrationState → ResumeStateSummary
summarize_resume_state s = record {
  mode = s.mode;
  source = s.source;
  destination = s.destination;
  total_batches = length s.batches;
  completed_batches = length (select is_deleted s.batches);
}

pub record ResumeExecutionSummary : Type 0 where
  pub total_batches : ℕ
  pub completed_batches : ℕ
  pub pending_delete_batches : ℕ

unfoldable pub summarize_resume_execution : MigrationState → ResumeExecutionSummary
summarize_resume_execution s = record {
  total_batches = length s.batches;
  completed_batches = length (select is_deleted s.batches);
  pending_delete_batches = length (select is_kept s.batches);
}

pub record TransferPlanningSummary : Type 0 where
  pub batch_count : ℕ
  pub source_file_count : ℕ
  pub source_total_bytes : ℕ

unfoldable pub summarize_transfer_plan : PlanningSnapshot → TransferPlanningSummary
summarize_transfer_plan plan = record {
  batch_count = length plan.batches;
  source_file_count = plan.source_file_count;
  source_total_bytes = plan.source_total_bytes;
}

pub record TransferExecutionSummary : Type 0 where
  pub processed_batches : ℕ
  pub total_batches : ℕ
  pub completed_batches : ℕ
  pub pending_delete_batches : ℕ

unfoldable pub summarize_transfer_execution : MigrationState → ℕ → TransferExecutionSummary
summarize_transfer_execution s processed_batches = record {
  processed_batches = processed_batches;
  total_batches = length s.batches;
  completed_batches = length (select is_deleted s.batches);
  pending_delete_batches = length (select is_kept s.batches);
}

select-split :
    (bs : List BatchState) → length (select is_deleted bs) + length (select is_kept bs) ≡ length bs
select-split [] = omega arith
select-split (b ∷ bs) = ground (arith, select-split bs)

-- Both execution summaries split the batches into the completed and the pending ones, and agree
-- with the summary of the state on the completed ones.
pub summaries-agree :
    (s : MigrationState) (n : ℕ)
    → let r = summarize_resume_execution s in
      let t = summarize_transfer_execution s n in
      (r.completed_batches + r.pending_delete_batches ≡ r.total_batches)
      × (t.completed_batches + t.pending_delete_batches ≡ t.total_batches)
      × ((summarize_resume_state s).completed_batches ≡ r.completed_batches)
unfolding summarize_resume_execution summarize_transfer_execution summarize_resume_state
summaries-agree s n = (select-split s.batches, select-split s.batches, refl)
